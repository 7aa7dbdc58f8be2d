-- ===== src/State/Patch/Installs/Laws.antt =====
-- What a report does to the image installs of its device and of the others,
-- src/features/device-state/state-patch-utils.ts.
use open_balena_api.Base.{
  ℕ, ◌==◌, ◌≡◌, ◌≢◌, refl, ap, sym, ◌∙◌, inl, inr, true, false, not, ◌&&◌, Bool-cases, Option, none,
  some, Option-cases, List, [], ◌∷◌, map, member, All, All-mono, arith,
}
use open_balena_api.State.Reports.{Body, post, upsert_image_install}
use open_balena_api.State.Patch.{Settings}
use open_balena_api.State.Patch.Installs.{
  ImgInstall, Install, Tables, existing, stored_report, is_accepted, written, decided, upsert,
  upsert_all, marked, images_of, delete_old_image_installs, save_installs,
}
use open_balena_api.State.Patch.Installs.Rows.{
  has_row, rows_of, IsKeyed, Owns, OwnsMaybe, marked-is_of, has_row-map, has_row-append,
  has_row-existing, has_row-written, installs-stored_report, rows_of-written, rows_of-marked,
  Owns-existing, Owns-written, refused-written, refused-stored_report,
}

-- What the database keeps of an image that a device no longer has.
abbrev pub IsDeleted : Install → Type 0
IsDeleted r = (r.status ≡ some "deleted") × (r.download_progress ≡ none)

module _ (s : Settings) (now d : ℕ) where
  -- The tables with the report stored, on which an upsert writes.
  abbrev reported : ImgInstall → Option ℕ → Tables → Tables
  reported i id db = stored_report id (decided s now i id db).1 db

  upsert-has :
      (j : ℕ) (i : ImgInstall) (id : Option ℕ) (db : Tables)
      → has_row d j db.installs ≡ true
      → has_row d j (upsert s now d i id db).installs ≡ true
  unfolding upsert
  upsert-has j i id db h =
      has_row-written d d i.image j id (decided s now i id db).0 (reported i id db)
        (rw (installs-stored_report id (decided s now i id db).1 db) h)

  -- A refusal stays.
  upsert-refused :
      (i : ImgInstall) (id : Option ℕ) (db : Tables)
      → (upsert s now d i id db).refused ≡ false
      → db.refused ≡ false
  unfolding upsert
  upsert-refused i id db h =
      sym (refused-stored_report id (decided s now i id db).1 db)
      ∙ refused-written d i.image id (decided s now i id db).0 (reported i id db) h

  upsert_all-refused :
      (rows : List Install) (is : List ImgInstall) (db : Tables)
      → (upsert_all s now d rows is db).refused ≡ false
      → db.refused ≡ false
  unfolding upsert_all
  upsert_all-refused rows [] db h = h
  upsert_all-refused rows (i ∷ is) db h =
      let id = existing d i.image rows in
      upsert-refused i id db (upsert_all-refused rows is (upsert s now d i id db) h)

  posted-has :
      (image : ℕ) (b : Body) (db : Tables)
      → (written d image none (post b) db).refused ≡ false
      → has_row d image (written d image none (post b) db).installs ≡ true
  posted-has image b db h = elim (Bool-cases (is_accepted d image b db)) [
    | inl a ↦ rw a (rw has_row-append (ground arith))
    | inr a ↦ cc (rw a at h)
  ]

  -- An image that has no row gets one, or is refused.
  upsert-created :
      (i : ImgInstall) (db : Tables)
      → (upsert s now d i none db).refused ≡ false
      → has_row d i.image (upsert s now d i none db).installs ≡ true
  unfolding upsert upsert_image_install
  upsert-created i db h = posted-has i.image _ db h

  upsert_all-has :
      (j : ℕ) (rows : List Install) (is : List ImgInstall) (db : Tables)
      → has_row d j db.installs ≡ true
      → has_row d j (upsert_all s now d rows is db).installs ≡ true
  unfolding upsert_all
  upsert_all-has j rows [] db h = h
  upsert_all-has j rows (i ∷ is) db h =
      upsert_all-has j rows is (upsert s now d i (existing d i.image rows) db)
        (upsert-has j i (existing d i.image rows) db h)

  -- The row of an image was there before, or it is made now.
  upsert-has_own :
      (rows : List Install) (i : ImgInstall) (db : Tables)
      → (upsert s now d i (existing d i.image rows) db).refused ≡ false
      → ((j : ℕ) → has_row d j rows ≡ true → has_row d j db.installs ≡ true)
      → has_row d i.image (upsert s now d i (existing d i.image rows) db).installs ≡ true
  upsert-has_own rows i db a h = elim (Option-cases (existing d i.image rows)) [
    | inl e ↦ rw e (upsert-created i db (rw e at a))
    | inr (id, e) ↦
        upsert-has i.image i (existing d i.image rows) db
          (h i.image (has_row-existing d i.image rows (λ n. cc)))
  ]

  upsert_all-served :
      (rows : List Install) (is : List ImgInstall) (db : Tables)
      → (upsert_all s now d rows is db).refused ≡ false
      → ((j : ℕ) → has_row d j rows ≡ true → has_row d j db.installs ≡ true)
      → All (λ i. has_row d i.image (upsert_all s now d rows is db).installs ≡ true) is
  unfolding upsert_all
  upsert_all-served rows [] db a h = tt
  upsert_all-served rows (i ∷ is) db a h =
      let id = existing d i.image rows in
      (
        upsert_all-has i.image rows is (upsert s now d i id db)
            (upsert-has_own rows i db (upsert_all-refused rows is (upsert s now d i id db) a) h),
        upsert_all-served rows is (upsert s now d i id db) a (λ j k. upsert-has j i id db (h j k)),
      )

  marked-IsDeleted :
      (ids : List ℕ) (rows : List Install)
      → All
          (λ r. r.device ≡ d → member r.installs_image ids ≡ false → IsDeleted r)
          (map (marked d ids) rows)
  marked-IsDeleted ids [] = tt
  marked-IsDeleted ids (r ∷ rs) =
      elim (Bool-cases (r.device == d && not (member r.installs_image ids))) [
        | inl e ↦ rw e ((λ _ _. (refl, refl)), marked-IsDeleted ids rs)
        | inr e ↦ rw e ((λ p q. absurd (ground arith)), marked-IsDeleted ids rs)
      ]

  -- After a report of image installs of which the database has refused none, every image that it names
  -- has a row of the device, and every row of the device with another image is deleted.
  pub save_installs-served :
      (is : List ImgInstall) (db : Tables)
      → (save_installs s now d is db).refused ≡ false
      → All (λ i. has_row d i.image (save_installs s now d is db).installs ≡ true) is
        × All
            (λ r. r.device ≡ d → member r.installs_image (images_of is) ≡ false → IsDeleted r)
            (save_installs s now d is db).installs
  unfolding save_installs delete_old_image_installs
  save_installs-served is db a =
      let rows = (upsert_all s now d db.installs is db).installs in
      let step = λ (i : ImgInstall) (h : has_row d i.image rows ≡ true).
        has_row-map (marked d (images_of is)) d i.image
          (λ r. marked-is_of d (images_of is) r d i.image) rows
        ∙ h in
      (
        All-mono step is (upsert_all-served db.installs is db a (λ j h. h)),
        marked-IsDeleted (images_of is) (upsert_all s now d db.installs is db).installs,
      )

  OwnsMaybe-all :
      (id : Option ℕ) (rows : List Install)
      → ((n : ℕ) → id ≡ some n → Owns d n rows)
      → OwnsMaybe d id rows
  OwnsMaybe-all none rows h = tt
  OwnsMaybe-all (some id) rows h = h id refl

  upsert-Owns :
      (i : ImgInstall) (n : ℕ) (id : Option ℕ) (db : Tables)
      → Owns d n db.installs
      → Owns d n (upsert s now d i id db).installs
  unfolding upsert
  upsert-Owns i n id db o =
      Owns-written d i.image n id (decided s now i id db).0 (reported i id db)
        (rw (installs-stored_report id (decided s now i id db).1 db) o)

  upsert-others :
      (e : ℕ) (i : ImgInstall) (id : Option ℕ) (db : Tables)
      → e ≢ d
      → OwnsMaybe d id db.installs
      → rows_of e (upsert s now d i id db).installs ≡ rows_of e db.installs
  unfolding upsert
  upsert-others e i id db n o =
      let same = installs-stored_report id (decided s now i id db).1 db in
      rows_of-written e d i.image id (decided s now i id db).0 (reported i id db) n (rw same o)
      ∙ ap (rows_of e) same

  upsert_all-others :
      (e : ℕ) (rows : List Install) (is : List ImgInstall) (db : Tables)
      → e ≢ d
      → ((image n : ℕ) → existing d image rows ≡ some n → Owns d n db.installs)
      → rows_of e (upsert_all s now d rows is db).installs ≡ rows_of e db.installs
  unfolding upsert_all
  upsert_all-others e rows [] db n o = refl
  upsert_all-others e rows (i ∷ is) db n o =
      let id = existing d i.image rows in
      upsert_all-others e rows is (upsert s now d i id db) n
        (λ image m h. upsert-Owns i m id db (o image m h))
      ∙ upsert-others e i id db n (OwnsMaybe-all id db.installs (o i.image))

  -- A report of a device leaves the image installs of all other devices as they are, in tables where
  -- ids are unique.
  pub save_installs-others :
      (e : ℕ) (is : List ImgInstall) (db : Tables)
      → e ≢ d
      → IsKeyed db.installs
      → rows_of e (save_installs s now d is db).installs ≡ rows_of e db.installs
  unfolding save_installs delete_old_image_installs
  save_installs-others e is db n k =
      rows_of-marked e d (images_of is) (upsert_all s now d db.installs is db).installs n
      ∙ upsert_all-others e db.installs is db n
          (λ image m h. Owns-existing d image m db.installs k h)
