-- ===== src/State/Tags/Examples.antt =====
-- A device that reports a tag, src/features/device-state/routes/tags-patch-v3.ts.
use open_balena_api.Base.{◌≡◌, refl, List, [], ◌∷◌, ok}
use open_balena_api.Base.Regex.{test}
use open_balena_api.Names.{check_tag_key_validity, starts_with_any, tag_namespaces}
use open_balena_api.State.Config.{lookup}
use open_balena_api.State.Tags.{
  Tag, inherited_names, write_all, Device, Body, value_of, updated_writes, new_writes,
  device_writes, all_writes, fetch_data, check_body, writes_of, tags_patch_v3,
}
use open_balena_api.State.Tags.Laws.{or_else}
use open_balena_api.State.Tags.Requests.{IsApart, read, reported, tags_patch_v3-values}

abbrev device : Device
device = record { id = 1; uuid = "u1" }

abbrev body : Body
body = ("u1", ("place", "hall") ∷ ("floor", "2") ∷ []) ∷ []

abbrev rows : List Tag
rows = record { device = 1; tag_key = "place"; value = "attic" } ∷ []

body-IsApart : IsApart (read (ok tt) (device ∷ []) (1 ∷ [])) body
unfolding lookup
body-IsApart = ((refl, (refl, tt)), tt, tt)

accepted : (tags_patch_v3 (ok tt) (device ∷ []) (1 ∷ []) body rows).0 ≡ 200
unfolding tags_patch_v3 writes_of check_body check_tag_key_validity test starts_with_any
    tag_namespaces fetch_data all_writes device_writes updated_writes new_writes value_of
    inherited_names
accepted = refl

tags_patch_v3-values_example :
    value_of 1 "place" (tags_patch_v3 (ok tt) (device ∷ []) (1 ∷ []) body rows).1
    ≡ or_else
        (reported (read (ok tt) (device ∷ []) (1 ∷ [])) body 1 "place")
        (value_of 1 "place" rows)
unfolding inherited_names
tags_patch_v3-values_example =
    tags_patch_v3-values (ok tt) (device ∷ []) (1 ∷ []) 1 "place" body rows refl body-IsApart
      accepted

-- The tag is taken for one that the device has: the answer is 200, and there is no tag.
lost :
    tags_patch_v3 (ok tt) (device ∷ []) (1 ∷ []) (("u1", ("toString", "c") ∷ []) ∷ []) rows
    ≡ (200, rows)
unfolding tags_patch_v3 writes_of check_body check_tag_key_validity test starts_with_any
    tag_namespaces fetch_data all_writes device_writes updated_writes new_writes value_of
    inherited_names write_all
lost = refl

white_key :
    (tags_patch_v3 (ok tt) (device ∷ []) (1 ∷ []) (("u1", ("a b", "c") ∷ []) ∷ []) rows).0 ≡ 400
unfolding tags_patch_v3 writes_of check_body check_tag_key_validity test
white_key = refl
