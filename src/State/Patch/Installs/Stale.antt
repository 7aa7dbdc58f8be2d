-- ===== src/State/Patch/Installs/Stale.antt =====
-- A device that reports an image, then none, then the image again,
-- src/features/device-state/state-patch-utils.ts: `shouldUpdateImageInstall` does not learn of the
-- deletion in between.
use open_balena_api.Base.{
  ℕ, ◌==◌, ◌≡◌, ◌≢◌, refl, ◌∙◌, inl, inr, not, ◌&&◌, Bool-cases, none, some, List, [], ◌∷◌, map,
  member, All, arith,
}
use open_balena_api.State.Reports.{
  undefined, percent, Body, patch, nothing, stored, upsert_image_install, normalize_status,
  should_update_image_install,
}
use open_balena_api.State.Reports.Laws.{repeat_held}
use open_balena_api.State.Patch.{Settings}
use open_balena_api.State.Patch.Installs.{
  ImgInstall, Install, Tables, is_of, existing, patched, marked, decided, upsert, upsert_all,
  delete_old_image_installs, save_installs,
}
use open_balena_api.State.Patch.Installs.Rows.{patched-is_of, marked-is_of}
use open_balena_api.State.Patch.Installs.Keys.{id-patched, id-marked}
use open_balena_api.State.Patch.Installs.Laws.{IsDeleted}

existing-map :
    (f : Install → Install) (d image : ℕ)
    → ((r : Install) → is_of d image (f r) ≡ is_of d image r)
    → ((r : Install) → (f r).id ≡ r.id)
    → (rows : List Install) → existing d image (map f rows) ≡ existing d image rows
unfolding existing
existing-map f d image h k [] = refl
existing-map f d image h k (r ∷ rs) = rw (h r, k r, existing-map f d image h k rs) refl

abbrev AllDeleted : ℕ → List Install → Type 0
AllDeleted d rows = All (λ r. r.device ≡ d → IsDeleted r) rows

marked-AllDeleted : (d : ℕ) (rows : List Install) → AllDeleted d (map (marked d []) rows)
marked-AllDeleted d [] = tt
marked-AllDeleted d (r ∷ rs) = elim (Bool-cases (r.device == d)) [
  | inl e ↦ rw e ((λ _. (refl, refl)), marked-AllDeleted d rs)
  | inr e ↦ rw e ((λ p. absurd (ground arith)), marked-AllDeleted d rs)
]

marked-AllDeleted_kept :
    (d : ℕ) (ids : List ℕ) (rows : List Install)
    → AllDeleted d rows
    → AllDeleted d (map (marked d ids) rows)
marked-AllDeleted_kept d ids [] h = tt
marked-AllDeleted_kept d ids (r ∷ rs) (p, h) =
    elim (Bool-cases (r.device == d && not (member r.installs_image ids))) [
      | inl e ↦ rw e ((λ _. (refl, refl)), marked-AllDeleted_kept d ids rs h)
      | inr e ↦ rw e (p, marked-AllDeleted_kept d ids rs h)
    ]

abbrev body_of : ImgInstall → Body
body_of i = record {
  status = normalize_status i.status;
  release = i.release;
  progress = i.download_progress;
}

module _ (s : Settings) (d id : ℕ) (i : ImgInstall) where
  decided-first :
      (now : ℕ) (db : Tables)
      → db.last_reports id ≡ none
      → decided s now i (some id) db ≡ (patch (body_of i), some (stored none (body_of i) now))
  unfolding upsert_image_install should_update_image_install
  decided-first now db h = rw h refl

  decided-repeat :
      (now then' : ℕ) (db : Tables)
      → db.last_reports id ≡ some (stored none (body_of i) then')
      → i.download_progress ≢ undefined
      → i.download_progress ≢ percent 100
      → (decided s now i (some id) db).0 ≡ nothing
  unfolding upsert_image_install
  decided-repeat now then' db h u c =
      rw (h, repeat_held s.install_interval none (body_of i) then' now u c) refl

  abbrev one : List ImgInstall
  one = i ∷ []

  first-existing :
      (now : ℕ) (db : Tables)
      → existing d i.image db.installs ≡ some id
      → db.last_reports id ≡ none
      → existing d i.image (save_installs s now d one db).installs ≡ some id
  unfolding save_installs upsert_all upsert delete_old_image_installs
  first-existing now db h l =
      rw (h, decided-first now db l)
        (existing-map (marked d (i.image ∷ [])) d i.image
            (λ r. marked-is_of d (i.image ∷ []) r d i.image) (id-marked d (i.image ∷ []))
            (map (patched id (body_of i)) db.installs)
          ∙ existing-map (patched id (body_of i)) d i.image
              (λ r. patched-is_of id (body_of i) r d i.image) (id-patched id (body_of i))
              db.installs
          ∙ h)

  first-report :
      (now : ℕ) (db : Tables)
      → existing d i.image db.installs ≡ some id
      → db.last_reports id ≡ none
      → (save_installs s now d one db).last_reports id ≡ some (stored none (body_of i) now)
  unfolding save_installs upsert_all upsert delete_old_image_installs
  first-report now db h l = rw (h, decided-first now db l) (ground arith)

  repeat-AllDeleted :
      (now then' : ℕ) (db : Tables)
      → existing d i.image db.installs ≡ some id
      → db.last_reports id ≡ some (stored none (body_of i) then')
      → i.download_progress ≢ undefined
      → i.download_progress ≢ percent 100
      → AllDeleted d db.installs
      → AllDeleted d (save_installs s now d one db).installs
  unfolding save_installs upsert_all upsert delete_old_image_installs
  repeat-AllDeleted now then' db h l u c a =
      rw (h, decided-repeat now then' db l u c)
        (marked-AllDeleted_kept d (i.image ∷ []) db.installs a)

  existing-nothing :
      (now : ℕ) (db : Tables)
      → existing d i.image (save_installs s now d [] db).installs ≡ existing d i.image db.installs
  unfolding save_installs upsert_all delete_old_image_installs
  existing-nothing now db =
      existing-map (marked d []) d i.image (λ r. marked-is_of d [] r d i.image) (id-marked d [])
        db.installs

  report-nothing :
      (now : ℕ) (db : Tables) → (save_installs s now d [] db).last_reports id ≡ db.last_reports id
  unfolding save_installs upsert_all delete_old_image_installs
  report-nothing now db = refl

  nothing-AllDeleted : (now : ℕ) (db : Tables) → AllDeleted d (save_installs s now d [] db).installs
  unfolding save_installs upsert_all delete_old_image_installs
  nothing-AllDeleted now db = marked-AllDeleted d db.installs

  -- Three reports of a device, of one image with a progress or null other than 100, of none, and of the
  -- image again as before: where the image has an install and no report of it was stored before the
  -- first of them, all image installs of the device are deleted after the third, whenever it comes. The
  -- stored report, which does not expire here, holds the last request back.
  pub again-AllDeleted :
      (t1 t2 t3 : ℕ) (db : Tables)
      → existing d i.image db.installs ≡ some id
      → db.last_reports id ≡ none
      → i.download_progress ≢ undefined
      → i.download_progress ≢ percent 100
      → All
          (λ r. r.device ≡ d → IsDeleted r)
          (save_installs s t3 d
            (i ∷ [])
            (save_installs s t2 d [] (save_installs s t1 d (i ∷ []) db))).installs
  again-AllDeleted t1 t2 t3 db h l u c =
      let db1 = save_installs s t1 d one db in
      repeat-AllDeleted t3 t1 (save_installs s t2 d [] db1)
        (existing-nothing t2 db1 ∙ first-existing t1 db h l)
        (report-nothing t2 db1 ∙ first-report t1 db h l) u c (nothing-AllDeleted t2 db1)
