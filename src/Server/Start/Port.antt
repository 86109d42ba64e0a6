-- ===== src/Server/Start/Port.antt =====
-- The search for a port in `ms_start` of src/ms_server.c: where it ends, and where it does not.
use libms.Base.{
  ℕ, zero, suc, ◌+◌, ◌%◌, ◌^◌, ◌≤◌, ◌<◌, ◌≡◌, ◌⊎◌, inl, inr, refl, ◌∙◌, Bool, true, false, Option,
  none, some, All, slice, ltb, Bool-cases, Outcome, ok, fault, Fault, arith,
}
use libms.Server.Start.{next_port, is_candidate, search_port}

module _ (mg_bind : ℕ → Bool) (http_port : ℕ) where
  abbrev pub AllTaken : ℕ → ℕ → Type 0
  AllTaken port n = All (λ p. mg_bind p ≡ false) (slice (λ p. p) port n)

  -- All of the `n` ports are taken, or the search finds the first that is not.
  abbrev pub Ends : ℕ → ℕ → Outcome (Option ℕ) → Type 0
  Ends port n m =
      ((m ≡ ok none) × AllTaken port n)
      ⊎ ((j : ℕ) × (j < n)
          × (m ≡ ok (some (port + j)))
          × (mg_bind (port + j) ≡ true)
          × AllTaken port j)

  is_candidate-inside :
      (port n : ℕ)
      → http_port + 100 < 2 ^ 15
      → port + n ≡ http_port + 100
      → is_candidate http_port port ≡ ltb 0 n
  unfolding is_candidate
  is_candidate-inside port n small e = ground arith

  search_port-Ends :
      (n port : ℕ)
      → http_port + 100 < 2 ^ 15
      → port + n ≡ http_port + 100
      → Ends port n (search_port mg_bind http_port (suc n) port)
  unfolding search_port next_port
  search_port-Ends zero port small e = inl (rw (is_candidate-inside port zero small e) refl, tt)
  search_port-Ends (suc n) port small e =
      let next : (port + 1) % 2 ^ 16 ≡ port + 1 = omega arith in
      let more : is_candidate http_port port ≡ true =
        is_candidate-inside port (suc n) small e ∙ ground arith in
      elim (Bool-cases (mg_bind port)) [
        | inl b ↦
            let at : port + 0 ≡ port = omega arith in
            inr (0, omega arith, rw (more, at, b) refl, rw at b, tt)
        | inr b ↦ elim (search_port-Ends n (port + 1) small (omega arith)) [
          | inl (r, taken) ↦ inl (rw (more, next, b) r, (b, taken))
          | inr (j, l, r, found, taken) ↦
              let at : port + suc j ≡ port + 1 + j = omega arith in
              inr (suc j, omega arith, rw (more, next, b, at) r, rw at found, (b, taken))
        ]
      ]

  -- From a port of at most 32667 the search for a port ends, after at most 100 tries, with the
  -- first of the 100 ports that can be had, or with none if all are taken.
  pub search_port-First :
      http_port + 100 < 2 ^ 15 → Ends http_port 100 (search_port mg_bind http_port 101 http_port)
  search_port-First small = search_port-Ends 100 http_port small refl

  -- From a port of at least 32668, as a `short`, the search does not end in any number of rounds
  -- if no port can be had.
  pub search_port-endless :
      (fuel port : ℕ)
      → http_port < 2 ^ 15
      → 2 ^ 15 ≤ http_port + 100
      → ((p : ℕ) → mg_bind p ≡ false)
      → search_port mg_bind http_port fuel port ≡ fault Fault.out_of_fuel
  unfolding search_port is_candidate
  search_port-endless zero port small high taken = refl
  search_port-endless (suc fuel) port small high taken =
      let more : is_candidate http_port port ≡ true = ground arith in
      rw (more, taken port) (search_port-endless fuel (next_port port) small high taken)
