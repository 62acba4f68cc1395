-- ===== src/Server/Manager/Drops.antt =====
-- What the `?` in the loop of `handle_frame` does to a broadcast test of the config string.
use vo_e.Common.{
  ◌≡◌, refl, sym, ap, ◌∙◌, false, Bool-cases, ◌⊎◌, inl, inr, some, Option-cases, List, [], ◌∷◌, ok,
  err, bytes_eq,
}
use vo_e.Protocol.Types.{AoeFrame, config_payload, config, ConfigHeader, config_command, test_exact}
use vo_e.Protocol.Build.{ResponseData}
use vo_e.Storage.{BlockStorage}
use vo_e.Server.{device_unavailable}
use vo_e.Server.Target.{
  TargetAddr, Target, TargetManager, find, keys, filter, address_matches, handle_config, run_config,
  config_answer,
}
use vo_e.Server.Manager.{handle_target_frame, answer_all, handle_frame}

abbrev pub Has : TargetAddr → List TargetAddr → Type 0
Has a [] = ⊥
Has a (b ∷ rest) = (a ≡ b) ⊎ Has a rest

module _ {S : Type 0} (device : BlockStorage S) (frame : AoeFrame) (header : ConfigHeader)
    (m : TargetManager S) (config_frame : frame.header.command ≡ config)
    (test : frame.payload ≡ config_payload header)
    (exact : config_command header ≡ ok test_exact) where
  no_change : (a : TargetAddr) → handle_target_frame device frame a m ≡ (handle_config frame a m, m)
  unfolding handle_target_frame
  no_change a = rw config_frame refl

  -- A target that is not there, or whose config string is another, fails the test.
  config-cases :
      (a : TargetAddr)
      → ((r : ResponseData) × (handle_config frame a m ≡ ok r))
        ⊎ (handle_config frame a m ≡ err device_unavailable)
  unfolding handle_config run_config
  config-cases a = elim (Option-cases (find a m.targets)) [
    | inl e ↦ inr (rw e refl)
    | inr (t, e) ↦ elim (Bool-cases (bytes_eq header.config_string t.config_string)) [
      | inl same ↦ inl (config_answer t m.firmware_version, rw (e, test, exact, same) refl)
      | inr other ↦ inr (rw (e, test, exact, other) refl)
    ]
  ]

  answer_all-drops :
      (a : TargetAddr) (l : List TargetAddr)
      → handle_config frame a m ≡ err device_unavailable
      → Has a l
      → (answer_all device frame l m).0 ≡ err device_unavailable
  unfolding answer_all
  answer_all-drops a [] fails there = absurd there
  answer_all-drops a (b ∷ rest) fails (inl here) =
      rw (no_change b, sym (ap (λ x. handle_config frame x m) here) ∙ fails) refl
  answer_all-drops a (b ∷ rest) fails (inr there) = elim (config-cases b) [
    | inr e ↦ rw (no_change b, e) refl
    | inl (r, e) ↦ rw (no_change b, e, answer_all-drops a rest fails there) refl
  ]

  -- A frame that tests whether the config string is exactly this fails as a whole, with no reply of
  -- any target, as soon as one target that it addresses has another config string.
  pub handle_frame-drops :
      (a : TargetAddr) (t : Target S)
      → Has a (filter (address_matches frame) (keys m.targets))
      → find a m.targets ≡ some t
      → bytes_eq header.config_string t.config_string ≡ false
      → (handle_frame device frame m).0 ≡ err device_unavailable
  unfolding handle_frame handle_config run_config
  handle_frame-drops a t there found other =
      answer_all-drops a (filter (address_matches frame) (keys m.targets))
        (rw (found, test, exact, other) refl) there
