-- ===== src/State/Patch/V2/Laws.antt =====
-- What a report of version 2 writes, src/features/device-state/routes/state-patch-v2.ts.
use open_balena_api.Base.{
  Bool, ℕ, ◌≡◌, ◌≢◌, refl, ◌∙◌, String, true, false, Option, none, some, List, [], ◌∷◌, ◌++◌,
  member, All, All-append, All-mono, ok,
}
use open_balena_api.State.Patch.{Settings, Object}
use open_balena_api.State.Patch.Installs.{
  ImgInstall, Tables, Update, installs_of, images_of, apply, apply_all,
}
use open_balena_api.State.Patch.Installs.Rows.{has_row}
use open_balena_api.State.Patch.Installs.Laws.{IsDeleted, save_installs-served}
use open_balena_api.State.Patch.Installs.Keys.{IsValid, view, device_of}
use open_balena_api.State.Patch.Transaction.{
  committed, all_applied, respond, OnOk-any_of, OnOk, OnOk-and_then, OnOk-continue, OnOk-mono, lift,
  Store, patch_updates, World, respond-others,
}
use open_balena_api.State.Patch.V2.{
  Local, Services, app_installs, install_updates, report_bodies, updates_of, state_patch_v2,
}

module _ (s : Settings) (now : ℕ) (resolve : String → Option ℕ) (d : ℕ) (uuid : String) where
  abbrev IsOwn : Update → Type 0
  IsOwn u = device_of u ≡ d

  patch_updates-IsOwn : (o metrics : Object) → All IsOwn (patch_updates d o metrics)
  patch_updates-IsOwn [] metrics = tt
  patch_updates-IsOwn (e ∷ o) metrics = (refl, tt)

  install_updates-IsOwn :
      (apps : Option (List (String × Option Services))) → OnOk (All IsOwn) (install_updates d apps)
  install_updates-IsOwn none = tt
  install_updates-IsOwn (some apps) =
      OnOk-and_then (λ _. Unit {0}) (All IsOwn) (app_installs apps) _
        (OnOk-any_of (app_installs apps)) (λ is _. (refl, tt))

  updates_of-IsOwn :
      (l : Local) (store : Store) → OnOk (All IsOwn) (updates_of s now resolve d uuid l store).0
  unfolding updates_of
  updates_of-IsOwn l store =
      OnOk-continue (All IsOwn) (All IsOwn)
        (lift (install_updates d l.apps) (report_bodies s now uuid l store).1) _
        (install_updates-IsOwn l.apps)
        (λ us _ p. All-append IsOwn (patch_updates d _ _) us (patch_updates-IsOwn _ _) p)

  -- A report of version 2 leaves the columns and the image installs of every device but its own as
  -- they are, in tables whose ids are in order.
  pub state_patch_v2-others :
      (e : ℕ) (l : Option Local) (w : World)
      → e ≢ d
      → IsValid w.tables
      → view e (state_patch_v2 s now resolve (some d) uuid l w).1.tables ≡ view e w.tables
  unfolding state_patch_v2
  state_patch_v2-others e none w n v = refl
  state_patch_v2-others e (some l) w n v =
      respond-others s now e w.tables (updates_of s now resolve d uuid l w.store) v (
        OnOk-mono (All IsOwn) (All (λ u. e ≢ device_of u))
          (updates_of s now resolve d uuid l w.store).0
          (λ us a. All-mono (λ u own same. n (same ∙ own)) us a) (updates_of-IsOwn l w.store))

  apply_all-last :
      (us : List Update) (u : Update) (db : Tables)
      → apply_all s now (us ++ u ∷ []) db ≡ apply s now u (apply_all s now us db)
  unfolding apply_all
  apply_all-last [] u db = refl
  apply_all-last (v ∷ us) u db = apply_all-last us u (apply s now v db)

  abbrev IsServed : List ImgInstall → Tables → Type 0
  IsServed is db =
      All (λ i. has_row d i.image db.installs ≡ true) is
      × All (λ r. r.device ≡ d → member r.installs_image (images_of is) ≡ false → IsDeleted r)
          db.installs

  apply_all-IsServed :
      (us : List Update) (is : List ImgInstall) (db : Tables)
      → (apply_all s now (us ++ installs_of d is ∷ []) db).refused ≡ false
      → IsServed is (apply_all s now (us ++ installs_of d is ∷ []) db)
  unfolding apply
  apply_all-IsServed us is db a =
      let e = apply_all-last us (installs_of d is) db in
      rw e (save_installs-served s now d is (apply_all s now us db) (rw e at a))

  committed-IsServed :
      (is : List ImgInstall) (db t : Tables) (store : Store) (b : Bool)
      → t.refused ≡ b
      → (t.refused ≡ false → IsServed is t)
      → s.refusal ≢ 200
      → (committed s db store b t).0 ≡ 200
      → IsServed is (committed s db store b t).1.tables
  committed-IsServed is db t store false e f n h = f e
  committed-IsServed is db t store true e f n h = absurd (n h)

  respond-IsServed :
      (us : List Update) (is : List ImgInstall) (db : Tables) (store : Store)
      → s.refusal ≢ 200
      → (respond s now db (ok (us ++ installs_of d is ∷ []), store)).0 ≡ 200
      → IsServed is (respond s now db (ok (us ++ installs_of d is ∷ []), store)).1.tables
  respond-IsServed us is db store n h =
      let t = all_applied s now db (us ++ installs_of d is ∷ []) in
      committed-IsServed is db t store t.refused refl
        (apply_all-IsServed us is (record db { refused = false })) n h

  -- After a report of version 2 whose image and release ids are numbers, and which is answered with 200,
  -- as it is unless the database refuses a row, every image that it names has a row of the device, and
  -- every row of the device with another image is deleted.
  state_patch_v2-IsServed :
      (l : Local) (apps : List (String × Option Services)) (is : List ImgInstall) (w : World)
      → app_installs apps ≡ ok is
      → s.refusal ≢ 200
      → (state_patch_v2 s now resolve (some d) uuid (some (record l { apps = some apps })) w).0
        ≡ 200
      → IsServed is
          (state_patch_v2 s now resolve
            (some d)
            uuid
            (some (record l { apps = some apps }))
            w).1.tables
  unfolding state_patch_v2 updates_of
  state_patch_v2-IsServed l apps is w h n =
      rw h (respond-IsServed (patch_updates d _ _) is w.tables _ n)
