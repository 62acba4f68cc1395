-- ===== src/Server/Manager/Answers.antt =====
-- The whole of `handle_frame`: every target that a frame addresses, and no other.
use vo_e.Common.{
  ◌≡◌, ◌≢◌, refl, sym, ap, ◌∙◌, subst, Bool, true, false, Bool-cases, inl, inr, List, [], ◌∷◌, map,
  All, ok, ok_inj, ◌↔◌,
}
use vo_e.Common.Io.{pure, ◌>>=◌, >>=-eq-ok}
use vo_e.Protocol.Types.{AoeFrame}
use vo_e.Protocol.Build.{ResponseData}
use vo_e.Storage.{BlockStorage}
use vo_e.Server.Target.{TargetAddr, addr_eq, TargetManager, find, keys, filter, address_matches}
use vo_e.Server.Target.Table.{addr_eq→≡, addr_eq_self}
use vo_e.Server.Manager.Replies.{
  IsAddressed, address_matches_iff, IsReply, RepliesAt, handle_target_frame-RepliesAt,
}
use vo_e.Server.Manager.{handle_target_frame, answer_all, handle_frame}
use vo_e.Server.Manager.Frames.{
  Reached, Same, Same-Reached, Same-trans-Reached, handle_target_frame-At, answer_all-cases,
  answer_all-kept,
}

-- No address stands twice.
abbrev pub Distinct : List TargetAddr → Type 0
Distinct [] = Unit
Distinct (a ∷ rest) = All (λ b. b ≢ a) rest × Distinct rest

module _ (p : TargetAddr → Bool) where
  All-filter : (P : TargetAddr → Type 0) (l : List TargetAddr) → All P l → All P (filter p l)
  All-filter P [] h = tt
  All-filter P (a ∷ rest) (h, hs) = elim (Bool-cases (p a)) [
    | inl e ↦ rw e (h, All-filter P rest hs)
    | inr e ↦ rw e (All-filter P rest hs)
  ]

  Distinct-filter : (l : List TargetAddr) → Distinct l → Distinct (filter p l)
  Distinct-filter [] h = tt
  Distinct-filter (a ∷ rest) (h, hs) = elim (Bool-cases (p a)) [
    | inl e ↦ rw e (All-filter (λ b. b ≢ a) rest h, Distinct-filter rest hs)
    | inr e ↦ rw e (Distinct-filter rest hs)
  ]

  filter-ne : (b : TargetAddr) → p b ≡ false → (l : List TargetAddr) → All (λ a. b ≢ a) (filter p l)
  filter-ne b out [] = tt
  filter-ne b out (a ∷ rest) = elim (Bool-cases (p a)) [
    | inl e ↦ rw e (
      (λ same. let wrong : true ≡ false = sym e ∙ ap p (sym same) ∙ out in cc wrong),
      filter-ne b out rest,
    )
    | inr e ↦ rw e (filter-ne b out rest)
  ]

pub flip_ne : (b : TargetAddr) (l : List TargetAddr) → All (λ a. a ≢ b) l → All (λ a. b ≢ a) l
flip_ne b [] h = tt
flip_ne b (a ∷ rest) (h, hs) = ((λ same. h (sym same)), flip_ne b rest hs)

module _ {S : Type 0} (device : BlockStorage S) where
  answer_all-Reached :
      (frame : AoeFrame) (l : List TargetAddr) (m : TargetManager S)
      → Distinct l
      → (b : TargetAddr) → Reached device b m (answer_all device frame l m).1
  unfolding answer_all
  answer_all-Reached frame [] m h b = Same-Reached device b m m refl
  answer_all-Reached frame (a ∷ rest) m (h, hs) b =
      let first = (handle_target_frame device frame a m).1 in
      let at = handle_target_frame-At device frame a m in
      let (_, _, others) = answer_all-kept device frame rest first in
      let later = (answer_all device frame rest first).1 in
      let either : Reached device b m first
          → Reached device b m later
          → Reached device b m (answer_all device frame (a ∷ rest) m).1 =
        λ r r'. elim (answer_all-cases device frame a rest m) [
          | inl e ↦ subst (λ n. Reached device b m n) (sym e) r
          | inr e ↦ subst (λ n. Reached device b m n) (sym e) r'
        ] in
      elim (Bool-cases (addr_eq b a)) [
        | inl here ↦
            let same = addr_eq→≡ b a here in
            let r : Reached device b m first =
              subst (λ x. Reached device x m first) (sym same) at.reached in
            let absent : All (λ x. b ≢ x) rest =
              subst (λ y. All (λ x. y ≢ x) rest) (sym same) (flip_ne a rest h) in
            either r (Same-trans-Reached device b m first later r (others b absent))
        | inr other ↦
            let same : Same device b m first = at.others_kept b (λ e.
              let wrong : true ≡ false = sym (addr_eq_self b) ∙ ap (addr_eq b) e ∙ other in
              cc wrong) in
            either (Same-Reached device b m first same)
              (λ t found. answer_all-Reached frame rest first hs b t (same ∙ found))
      ]

  answer_all-eq-ok :
      (frame : AoeFrame) (l : List TargetAddr) (m : TargetManager S)
      (rs : List (TargetAddr × ResponseData))
      → (answer_all device frame l m).0 ≡ ok rs
      → map (λ (r : TargetAddr × ResponseData). r.0) rs ≡ l
  unfolding answer_all
  answer_all-eq-ok frame [] m rs h = ap (map (λ r. r.0)) (sym (ok_inj h))
  answer_all-eq-ok frame (a ∷ rest) m rs h =
      let (response, _, h2) =
        >>=-eq-ok (handle_target_frame device frame a)
          (λ response.
            answer_all device frame rest >>= λ responses. pure ((a, response) ∷ responses))
          m h in
      let first = (handle_target_frame device frame a m).1 in
      let (responses, got, h3) =
        >>=-eq-ok (answer_all device frame rest) (λ responses. pure ((a, response) ∷ responses))
          first h2 in
      ap (map (λ r. r.0)) (sym (ok_inj h3))
      ∙ ap (λ l. a ∷ l) (answer_all-eq-ok frame rest first responses got)

  All-Same_refl : (l : List TargetAddr) (m : TargetManager S) → All (λ b. Same device b m m) l
  All-Same_refl [] m = tt
  All-Same_refl (b ∷ l) m = (refl, All-Same_refl l m)

  -- What the addresses to come had, they have after the frame at another.
  All-Same_after :
      (frame : AoeFrame) (a : TargetAddr) (start m : TargetManager S) (l : List TargetAddr)
      → All (λ b. b ≢ a) l
      → All (λ b. Same device b start m) l
      → All (λ b. Same device b start (handle_target_frame device frame a m).1) l
  All-Same_after frame a start m [] others same = tt
  All-Same_after frame a start m (b ∷ l) (other, others) (here, same) = (
    (handle_target_frame-At device frame a m).others_kept b other ∙ here,
    All-Same_after frame a start m l others same,
  )

  -- The replies are those of a table `start`, as far as the addresses to come are as they were there.
  answer_all-RepliesAt :
      (frame : AoeFrame) (start : TargetManager S) (l : List TargetAddr) (m : TargetManager S)
      (rs : List (TargetAddr × ResponseData))
      → Distinct l
      → All (λ b. Same device b start m) l
      → m.firmware_version ≡ start.firmware_version
      → (answer_all device frame l m).0 ≡ ok rs
      → All (λ (r : TargetAddr × ResponseData). RepliesAt device frame start r.0 r.1) rs
  unfolding answer_all
  answer_all-RepliesAt frame start [] m rs distinct same version h =
      subst (All (λ (r : TargetAddr × ResponseData). RepliesAt device frame start r.0 r.1))
        (ok_inj h) tt
  answer_all-RepliesAt frame start (a ∷ rest) m rs (other, distinct) (here, same) version h =
      let (response, replied, h2) =
        >>=-eq-ok (handle_target_frame device frame a)
          (λ response.
            answer_all device frame rest >>= λ responses. pure ((a, response) ∷ responses))
          m h in
      let first = (handle_target_frame device frame a m).1 in
      let (responses, got, h3) =
        >>=-eq-ok (answer_all device frame rest) (λ responses. pure ((a, response) ∷ responses))
          first h2 in
      let at = handle_target_frame-At device frame a m in
      let (t, found, reply) = handle_target_frame-RepliesAt device frame a m response replied in
      let own : RepliesAt device frame start a response = (
        t,
        sym here ∙ found,
        subst (λ v. IsReply device frame.header.command frame.payload v t response) version reply,
      ) in
      let later =
        answer_all-RepliesAt frame start rest first responses distinct
          (All-Same_after frame a start m rest other same) (at.version_kept ∙ version) got in
      subst (All (λ (r : TargetAddr × ResponseData). RepliesAt device frame start r.0 r.1))
        (ok_inj h3) (own, later)

  -- In a table whose addresses are distinct: a frame that is answered is answered once by every target
  -- that it addresses and by no other, where a target is addressed if its shelf and its slot are the
  -- frame's or the frame's are those that stand for all; and each reply is that of the target at its
  -- address, from its device or its config string as they were before the frame.
  pub handle_frame-answers_matching :
      (frame : AoeFrame) (m : TargetManager S) (rs : List (TargetAddr × ResponseData))
      → Distinct (keys m.targets)
      → (handle_frame device frame m).0 ≡ ok rs
      → (map (λ (r : TargetAddr × ResponseData). r.0) rs
          ≡ filter (address_matches frame) (keys m.targets))
        × ((a : TargetAddr) → (address_matches frame a ≡ true) ↔ IsAddressed frame a)
        × All (λ (r : TargetAddr × ResponseData). RepliesAt device frame m r.0 r.1) rs
  unfolding handle_frame
  handle_frame-answers_matching frame m rs distinct h =
      let matching = filter (address_matches frame) (keys m.targets) in
      (
        answer_all-eq-ok frame matching m rs h,
        address_matches_iff frame,
        answer_all-RepliesAt frame m matching m rs
            (Distinct-filter (address_matches frame) (keys m.targets) distinct)
            (All-Same_refl matching m) refl h,
      )

  -- In a table whose addresses are distinct: whether a frame is answered or fails on the way, the targets' addresses stay as they are, a
  -- target that it does not address stays as it is, and of one that it addresses the config string
  -- stays and the device has one permitted call at most.
  pub handle_frame-Reached :
      (frame : AoeFrame) (m : TargetManager S)
      → Distinct (keys m.targets)
      → let n = (handle_frame device frame m).1 in
        (keys n.targets ≡ keys m.targets)
        × (n.firmware_version ≡ m.firmware_version)
        × ((b : TargetAddr) → address_matches frame b ≡ false → find b n.targets ≡ find b m.targets)
        × ((b : TargetAddr) → Reached device b m n)
  unfolding handle_frame
  handle_frame-Reached frame m distinct =
      let matching = filter (address_matches frame) (keys m.targets) in
      let (kept, version, others) = answer_all-kept device frame matching m in
      (
        kept,
        version,
        λ b out. others b (filter-ne (address_matches frame) b out (keys m.targets)),
        answer_all-Reached frame matching m
            (Distinct-filter (address_matches frame) (keys m.targets) distinct),
      )
