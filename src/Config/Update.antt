-- ===== src/Config/Update.antt =====
-- What `arwill_config_set` and `arwill_config_set_remote_key` leave, whether they succeed or not.
use arwill.Prelude.{
  ℕ, ◌≡◌, refl, ◌⊎◌, inl, inr, Bool, true, false, not, if◌then◌else◌, Option, none, some, List,
}
use arwill.Config.Types.{
  Config, IsWellFormed, true_text, false_text, info_text, enabled_key, port_key, log_level_key,
}
use arwill.Config.Parse.{set_key}
use arwill.Config.Store.{candidate_for, persist, commit, set, set_remote_key}
use arwill.Text.{text_equals}
use arwill.Config.Values.{Keeps, IsSound, set_port-Keeps, set_key-Keeps}

module _ {F : Type 0} where
  -- a change leaves a well-formed configuration, which is the old one where it fails
  abbrev pub Changed : Config F → Bool × Config F × F → Type 0
  Changed c (took, c', disk) =
      IsWellFormed c'
      × (((took ≡ false) × (c' ≡ c)) ⊎ ((took ≡ true) × (c'.loaded_from_file ≡ true)))

  commit-Changed :
      (c candidate : Config F) (disk : F)
      → IsWellFormed c
      → IsSound candidate
      → Changed c (commit c candidate disk)
  unfolding commit
  commit-Changed c candidate disk w (first, port, key, up) = go (persist candidate disk)
    where
      go :
          (o : Bool × F)
          → let r : Bool × Config F × F =
              if not (o.0)
              then (false, c, o.1)
              else (true, record candidate { loaded_from_file = true }, o.1) in
            Changed c r
      go (false, disk') = (w, inl (refl, refl))
      go (true, disk') = ((first, port, key, inl up), inr (refl, refl))

  either-Keeps :
      (b : Bool) (x y : Option (Config F)) → Keeps x → Keeps y → Keeps (if b then x else y)
  either-Keeps true x y kx ky = kx
  either-Keeps false x y kx ky = ky

  pub candidate_for-Keeps :
      (c : Config F) (key value : List ℕ) → IsSound c → Keeps (candidate_for c key value)
  unfolding candidate_for
  candidate_for-Keeps c key value (first, port, k, up) =
      let w : IsSound c = (first, port, k, up) in
      let nothing : Keeps {F = F} none = tt in
      either-Keeps (text_equals key enabled_key) _ _
        (either-Keeps (text_equals value true_text) _ _ w
          (either-Keeps (text_equals value false_text) _ _ w nothing))
        (either-Keeps (text_equals key port_key) _ _ (set_port-Keeps c value w) (
          either-Keeps (text_equals key log_level_key) _ _
            (either-Keeps (not (text_equals value info_text)) _ _ nothing w) nothing))

  either_way :
      (c : Config F) (disk : F) (o : Option (Config F))
      → IsWellFormed c
      → Keeps o
      → let r : Bool × Config F × F = elim o [
        | none ↦ (false, c, disk)
        | some candidate ↦ commit c candidate disk
      ] in
        Changed c r
  either_way c disk none w k = (w, inl (refl, refl))
  either_way c disk (some candidate) w k = commit-Changed c candidate disk w k

  when_valid :
      (c : Config F) (b : Bool) (x y : Bool × Config F × F)
      → Changed c x
      → (b ≡ true → Changed c y)
      → Changed c (if not b then x else y)
  when_valid c true x y kept changes = changes refl
  when_valid c false x y kept changes = kept

  pub sound : (c : Config F) → IsWellFormed c → c.valid ≡ true → IsSound c
  sound c (first, port, key, _) up = (first, port, key, up)

  -- A change of a well-formed configuration, whatever key and value it names and whether it can be
  -- stored or not, leaves a well-formed one, which is the old one where the change fails and is
  -- marked as loaded from a file where it succeeds.
  pub set-Changed :
      (c : Config F) (disk : F) (key value : List ℕ)
      → IsWellFormed c
      → Changed c (set c disk key value)
  unfolding set
  set-Changed c disk key value w =
      when_valid c c.valid (false, c, disk) _ (w, inl (refl, refl))
        (λ up.
          either_way c disk (candidate_for c key value) w
            (candidate_for-Keeps c key value (sound c w up)))

  -- A change of the remote key of a well-formed configuration, whatever the key and whether it can be
  -- stored or not, leaves a well-formed one, which is the old one where the change fails and is
  -- marked as loaded from a file where it succeeds.
  pub set_remote_key-Changed :
      (c : Config F) (disk : F) (value : List ℕ)
      → IsWellFormed c
      → Changed c (set_remote_key c disk value)
  unfolding set_remote_key
  set_remote_key-Changed c disk value w =
      when_valid c c.valid (false, c, disk) _ (w, inl (refl, refl))
        (λ up. either_way c disk (set_key c value) w (set_key-Keeps c value (sound c w up)))
