-- ===== src/Nbd/Ends.antt =====
-- `handle_client` ends.
use vo_e.Common.{
  ℕ, ◌≤◌, ◌<◌, ◌≡◌, refl, ap, arith, bit_or, Bool-cases, inl, inr, ◌==◌, if◌then◌else◌, ltb, Option,
  none, some, Outcome, ok, err, some_inj, Outcome-cases, ErrorKind, connection_aborted,
  invalid_data,
}
use vo_e.Common.Io.{Io, pure, fail, ◌>>=◌, ◌>>◌}
use vo_e.Common.Stream.{
  Reader, Writer, ReaderLaws, read_u32, read_u64, left, read_exact_shrinks, read_u32_shrinks,
  read_u64_shrinks, read_u64_shrinks_ok, test_shrinks,
}
use vo_e.Storage.{BlockStorage}
use vo_e.Nbd.Protocol.{
  NbdCommand, read, write, disc, flush, trim, write_zeroes, NbdRequest, command_type, Connection,
  on_input, on_output, greet, greeting, export_info, unsupported_reply, export_name, unsupported,
  then_turn, negotiate, read_request, nbd_opts_magic, nbd_opt_export_name, nbd_opt_abort,
  nbd_flag_has_flags, nbd_flag_send_flush,
}
use vo_e.Common.Loop.{Turn, loop-Ends, Ends, >>=_shrinks, >>=_shrinks_ok}
use vo_e.Nbd.Loops.{read_request_shrinks_ok, read_request_shrinks}
use vo_e.Nbd.Server.{
  send_reply, request_sectors, einval, handle_read, handle_write, handle_flush, then_on, dispatch,
  serve, requests, shaken, handle_client,
}

module _ {R W S : Type 0} (reader : Reader R) (laws : ReaderLaws reader) where
  abbrev pub left_of : Connection R W S → ℕ
  left_of c = left reader laws c.input

  -- No call gives bytes back to the input.
  abbrev Shrinks : {A : Type 0} → Io (Connection R W S) ErrorKind A → Type 0
  Shrinks m = (c : Connection R W S) → left_of (m c).1 ≤ left_of c

  then_Shrinks :
      {A : Type 0} (m : Io (Connection R W S) ErrorKind (Unit {0}))
      (k : Io (Connection R W S) ErrorKind A)
      → Shrinks m
      → Shrinks k
      → Shrinks (m >> k)
  then_Shrinks m k first rest = >>=_shrinks left_of m (λ _. k) first (λ _. rest)

  in_Shrinks :
      {A B : Type 0} (m : Io R ErrorKind A) (k : A → Io (Connection R W S) ErrorKind B)
      → ((r : R) → left reader laws (m r).1 ≤ left reader laws r)
      → ((a : A) → Shrinks (k a))
      → Shrinks (on_input m >>= k)
  in_Shrinks m k first rest = >>=_shrinks left_of (on_input m) k (λ c. first c.input) rest

  last_Shrinks : (m : Io W ErrorKind (Unit {0})) → Shrinks (on_output m)
  last_Shrinks m c = omega arith

  module _ (writer : Writer W) where
    export_name-Shrinks :
        (size flags client n : ℕ) → Shrinks (export_name reader writer size flags client n)
    unfolding export_name
    export_name-Shrinks size flags client n =
        in_Shrinks (reader.read_exact n) _ (read_exact_shrinks reader laws n)
          (λ name. last_Shrinks (export_info writer size flags client))

    unsupported-Shrinks : (option n : ℕ) → Shrinks (unsupported reader writer option n)
    unfolding unsupported
    unsupported-Shrinks option n =
        in_Shrinks (reader.read_exact n) _ (read_exact_shrinks reader laws n)
          (λ ignored. last_Shrinks (unsupported_reply writer option))

    abbrev of_option : ℕ → ℕ → ℕ → ℕ → ℕ → Io (Connection R W S) ErrorKind Turn
    of_option size flags client option n =
        if option == nbd_opt_export_name
        then then_turn reader writer (export_name reader writer size flags client n) Turn.returns
        else if option == nbd_opt_abort
        then fail connection_aborted
        else then_turn reader writer (unsupported reader writer option n) Turn.goes_on

    option_Shrinks :
        (size flags client option n : ℕ) → Shrinks (of_option size flags client option n)
    option_Shrinks size flags client option n = elim (Bool-cases (option == nbd_opt_export_name)) [
      | inl e ↦ rw e (
          then_Shrinks (export_name reader writer size flags client n) (pure Turn.returns)
            (export_name-Shrinks size flags client n) (λ c. omega arith))
      | inr e ↦ elim (Bool-cases (option == nbd_opt_abort)) [
        | inl f ↦ rw (e, f) (λ c. omega arith)
        | inr f ↦
            rw (e, f)
              (then_Shrinks (unsupported reader writer option n) (pure Turn.goes_on)
                (unsupported-Shrinks option n) (λ c. omega arith))
      ]
    ]

    -- What follows the magic of an option.
    after_magic-Shrinks :
        (size flags client magic : ℕ)
        → Shrinks (
            (if magic == nbd_opts_magic then pure tt else fail {A = Unit {0}} invalid_data)
            >> (on_input (read_u32 reader) >>= λ option.
                on_input (read_u32 reader) >>= λ n. of_option size flags client option n))
    after_magic-Shrinks size flags client magic =
        then_Shrinks _ _
          (λ c. test_shrinks reader laws left_of (magic == nbd_opts_magic) invalid_data c)
          (in_Shrinks (read_u32 reader) _ (read_u32_shrinks reader laws) (λ option.
            in_Shrinks (read_u32 reader) _ (read_u32_shrinks reader laws)
              (λ n. option_Shrinks size flags client option n)))

    negotiate-Shrinks :
        (size flags client : ℕ) → Shrinks (negotiate reader writer size flags client)
    unfolding negotiate
    negotiate-Shrinks size flags client =
        in_Shrinks (read_u64 reader) _ (read_u64_shrinks reader laws)
          (after_magic-Shrinks size flags client)

    -- A round of the negotiation that goes on has taken bytes.
    negotiate_shrinks :
        (size flags client : ℕ) (c : Connection R W S)
        → (negotiate reader writer size flags client c).0 ≡ ok Turn.goes_on
        → left_of (negotiate reader writer size flags client c).1 < left_of c
    unfolding negotiate
    negotiate_shrinks size flags client c =
        >>=_shrinks_ok left_of (on_input (read_u64 reader)) _
          (λ c n. read_u64_shrinks_ok reader laws c.input n) (after_magic-Shrinks size flags client)
          c Turn.goes_on

    greet-Shrinks : Shrinks (greet reader writer)
    unfolding greet
    greet-Shrinks =
        then_Shrinks (on_output (greeting writer)) (on_input (read_u32 reader))
          (last_Shrinks (greeting writer)) (λ c. read_u32_shrinks reader laws c.input)

    module _ (device : BlockStorage S) where
      handle_read-Shrinks : (q : NbdRequest) → Shrinks (handle_read reader writer device q)
      unfolding handle_read
      handle_read-Shrinks q = elim (Bool-cases (ltb 255 (request_sectors q))) [
        | inl many ↦ rw many (last_Shrinks (send_reply writer q einval))
        | inr few ↦ rw few (λ c. omega arith)
      ]

      handle_write-Shrinks : (q : NbdRequest) → Shrinks (handle_write reader writer device q)
      unfolding handle_write
      handle_write-Shrinks q = elim (Bool-cases (ltb 255 (request_sectors q))) [
        | inl many ↦ rw many (
            in_Shrinks (reader.read_exact q.length) _ (read_exact_shrinks reader laws q.length)
              (λ _. last_Shrinks (send_reply writer q einval)))
        | inr few ↦ rw few (
            in_Shrinks (reader.read_exact q.length) _ (read_exact_shrinks reader laws q.length)
              (λ payload c. omega arith))
      ]

      handle_flush-Shrinks : (q : NbdRequest) → Shrinks (handle_flush reader writer device q)
      unfolding handle_flush
      handle_flush-Shrinks q = λ c. omega arith

      on_Shrinks :
          (m : Io (Connection R W S) ErrorKind (Unit {0}))
          → Shrinks m
          → Shrinks (then_on reader writer device m)
      on_Shrinks m first = then_Shrinks m (pure Turn.goes_on) first (λ c. omega arith)

      dispatch-Shrinks :
          (o : Option NbdCommand) (q : NbdRequest) → Shrinks (dispatch reader writer device o q)
      dispatch-Shrinks (some read) q = on_Shrinks _ (handle_read-Shrinks q)
      dispatch-Shrinks (some write) q = on_Shrinks _ (handle_write-Shrinks q)
      dispatch-Shrinks (some flush) q = on_Shrinks _ (handle_flush-Shrinks q)
      dispatch-Shrinks (some disc) q = λ c. omega arith
      dispatch-Shrinks (some trim) q = on_Shrinks _ (last_Shrinks (send_reply writer q 0))
      dispatch-Shrinks (some write_zeroes) q =
          on_Shrinks _ (last_Shrinks (send_reply writer q einval))
      dispatch-Shrinks none q = on_Shrinks _ (last_Shrinks (send_reply writer q einval))

      serve_shrinks :
          (c : Connection R W S)
          → (serve reader writer device c).0 ≡ ok Turn.goes_on
          → left_of (serve reader writer device c).1 < left_of c
      unfolding serve
      serve_shrinks c h = elim (Outcome-cases (read_request reader c.input).0) [
        | inl (q, e) ↦
            let shorter = read_request_shrinks_ok reader laws c.input q e in
            rw e (
              omega (
                arith,
                shorter,
                dispatch-Shrinks (command_type q) q
                    (record c { input = (read_request reader c.input).1 }),
              ))
        | inr (k, e) ↦ absurd (
            let bad : ◌≡◌ {A = Outcome ErrorKind Turn} (ok Turn.returns) (ok Turn.goes_on) =
              rw e at h in
            cc)
      ]

      serve-Shrinks : Shrinks (serve reader writer device)
      unfolding serve
      serve-Shrinks c =
          let shorter = read_request_shrinks reader laws c.input in
          elim (Outcome-cases (read_request reader c.input).0) [
            | inl (q, e) ↦ rw e (
                omega (
                  arith,
                  shorter,
                  dispatch-Shrinks (command_type q) q
                      (record c { input = (read_request reader c.input).1 }),
                ))
            | inr (k, e) ↦ rw e shorter
          ]

      abbrev Result : Type 0
      Result = Outcome ErrorKind (Unit {0}) × Connection R W S

      requests-returns :
          (fuel : ℕ) (c : Connection R W S) (o : Option Result)
          → left_of c < fuel
          → Ends left_of o c
          → (r : Result) × (requests reader writer device fuel o ≡ some r)
      unfolding requests
      requests-returns fuel c (some (err e, c1)) h ends = ((err e, c1), refl)
      requests-returns fuel c (some (ok tt, c1)) h (r, same, smaller) =
          let at_r : ◌≡◌ {A = Option Result} (some (ok tt, c1)) (some r) = same in
          let here : c1 ≡ r.1 = ap (λ (x : Result). x.1) (some_inj at_r) in
          let (r2, served, _) =
            loop-Ends left_of (serve reader writer device) serve_shrinks serve-Shrinks fuel c1
              (omega (arith, h, smaller, ap left_of here)) in
          (r2, served)
      requests-returns fuel c none h (r, same, smaller) =
          absurd (let bad : ◌≡◌ {A = Option Result} none (some r) = same in cc)

      shaken-Ends :
          (fuel size flags : ℕ) (g : Outcome ErrorKind ℕ × Connection R W S)
          → left_of g.1 < fuel
          → Ends left_of (shaken reader writer device fuel size flags g) g.1
      unfolding shaken
      shaken-Ends fuel size flags (ok client, c) h =
          loop-Ends left_of (negotiate reader writer size flags client)
            (negotiate_shrinks size flags client) (negotiate-Shrinks size flags client) fuel c h
      shaken-Ends fuel size flags (err e, c) h = ((err e, c), refl, omega arith)

      -- With more fuel than the client sends bytes, `handle_client` returns, whatever the bytes are.
      pub handle_client-returns :
          (fuel : ℕ) (c : Connection R W S)
          → left_of c < fuel
          → (r : Result) × (handle_client reader writer device fuel c ≡ some r)
      unfolding handle_client
      handle_client-returns fuel c h =
          let g = greet reader writer c in
          let enough : left_of g.1 < fuel = omega (arith, h, greet-Shrinks c) in
          requests-returns fuel g.1 _ enough
            (shaken-Ends fuel _ (bit_or nbd_flag_has_flags nbd_flag_send_flush) g enough)
