-- ===== src/P2p/Driver/Replay.antt =====
-- driver.rs, `check_replay`: the window of recent nonces; `record_decrypt_failure`: the storm count.
use mxdx.Prelude.{
  ℕ, suc, ◌+◌, ◌-◌, ◌≤◌, ◌<◌, String, str_eq_refl, ◌≡◌, refl, ap, inl, inr, true, false, List, [],
  ◌∷◌, ◌++◌, arith, Bool-cases, push_back, pop_front, length, length-append, leb,
}
use mathlib.Core.List.{append_assoc}
use mxdx.P2p.Driver.Types.{DriverTask, replay_window_size}
use mxdx.Prelude.Bytes.{bytes_eq_refl}
use mxdx.P2p.Driver.Guards.{seen, check_replay}

seen-middle :
    (call_id : String) (nonce : List ℕ) (pre post : List (List ℕ × String))
    → seen (pre ++ (nonce, call_id) ∷ post) call_id nonce ≡ true
unfolding seen
seen-middle call_id nonce [] post = rw (bytes_eq_refl nonce, str_eq_refl call_id) refl
seen-middle call_id nonce (p ∷ pre) post = ground (arith, seen-middle call_id nonce pre post)

length-pop_front : (w : List (List ℕ × String)) → length (pop_front w) ≡ length w - 1
length-pop_front [] = omega arith
length-pop_front (p ∷ w) = omega arith

-- The pair stands in the window with at most `k` pairs behind it.
Kept : String → List ℕ → ℕ → List (List ℕ × String) → Type 0
Kept call_id nonce k w =
    (pre : List (List ℕ × String)) × (post : List (List ℕ × String)) × (w
      ≡ pre ++ (nonce, call_id) ∷ post)
    × (length post ≤ k)

seen-Kept :
    (call_id : String) (nonce : List ℕ) (k : ℕ) (w : List (List ℕ × String))
    → Kept call_id nonce k w
    → seen w call_id nonce ≡ true
unfolding Kept
seen-Kept call_id nonce k w (pre, post, e, _) = rw e (seen-middle call_id nonce pre post)

Kept-push_back :
    (call_id : String) (nonce : List ℕ) (k : ℕ) (w : List (List ℕ × String)) (q : List ℕ × String)
    → Kept call_id nonce k w
    → Kept call_id nonce (suc k) (push_back w q)
unfolding Kept
Kept-push_back call_id nonce k w q (pre, post, e, h) = (
  pre,
  push_back post q,
  rw e (append_assoc pre ((nonce, call_id) ∷ post) (q ∷ [])),
  omega (arith, length-append post (q ∷ [])),
)

-- A full window loses a pair in front of the kept one.
Kept-pop_front :
    (call_id : String) (nonce : List ℕ) (k : ℕ) (w : List (List ℕ × String))
    → suc k < length w
    → Kept call_id nonce k w
    → Kept call_id nonce k (pop_front w)
unfolding Kept
Kept-pop_front call_id nonce k w full ([], post, e, h) = absurd (omega (arith, ap length e))
Kept-pop_front call_id nonce k w full (p ∷ pre, post, e, h) = (pre, post, ap pop_front e, h)

Kept-suc :
    (call_id : String) (nonce : List ℕ) (k : ℕ) (w : List (List ℕ × String))
    → Kept call_id nonce k w
    → Kept call_id nonce (suc k) w
unfolding Kept
Kept-suc call_id nonce k w (pre, post, e, h) = (pre, post, e, omega arith)

module _ {Channel Crypto : Type 0} where
  -- A check never lets the window outgrow its sixteen pairs, reports a replay exactly if the pair
  -- was in the window, and then changes nothing.
  pub check_replay_lem :
      (call_id : String) (nonce : List ℕ) (d : DriverTask Channel Crypto)
      → length d.recent_nonces ≤ replay_window_size
      → let (d', replayed) = check_replay call_id nonce d in
        (length d'.recent_nonces ≤ replay_window_size)
        × (replayed ≡ seen d.recent_nonces call_id nonce)
        × (replayed ≡ true → d' ≡ d)
  unfolding check_replay
  check_replay_lem call_id nonce d h = ground (
    arith,
    length-pop_front d.recent_nonces,
    length-append d.recent_nonces ((nonce, call_id) ∷ []),
    length-append (pop_front d.recent_nonces) ((nonce, call_id) ∷ []),
  )

  -- One more check, of any pair, moves the kept pair at most one place on.
  check_replay-Kept :
      (call_id : String) (nonce : List ℕ) (k : ℕ) (other : String × List ℕ)
      (d : DriverTask Channel Crypto)
      → k < 15
      → Kept call_id nonce k d.recent_nonces
      → Kept call_id nonce (suc k) (check_replay other.0 other.1 d).0.recent_nonces
  unfolding check_replay
  check_replay-Kept call_id nonce k (c, n) d h kept = elim (Bool-cases (seen d.recent_nonces c n)) [
    | inl old ↦ rw old (Kept-suc call_id nonce k d.recent_nonces kept)
    | inr new ↦ rw new (elim (Bool-cases (leb replay_window_size (length d.recent_nonces))) [
      | inl full ↦ rw full (
          Kept-push_back call_id nonce k (pop_front d.recent_nonces) (n, c)
            (Kept-pop_front call_id nonce k d.recent_nonces (ground arith) kept))
      | inr room ↦ rw room (Kept-push_back call_id nonce k d.recent_nonces (n, c) kept)
    ])
  ]

  -- Any checks in a row.
  unfoldable pub check_all :
      List (String × List ℕ) → DriverTask Channel Crypto → DriverTask Channel Crypto
  check_all [] d = d
  check_all (p ∷ ps) d = check_all ps (check_replay p.0 p.1 d).0

  check_all-Kept :
      (call_id : String) (nonce : List ℕ) (k : ℕ) (ps : List (String × List ℕ))
      (d : DriverTask Channel Crypto)
      → k + length ps ≤ 15
      → Kept call_id nonce k d.recent_nonces
      → seen (check_all ps d).recent_nonces call_id nonce ≡ true
  unfolding check_all
  check_all-Kept call_id nonce k [] d h kept = seen-Kept call_id nonce k d.recent_nonces kept
  check_all-Kept call_id nonce k (p ∷ ps) d h kept =
      check_all-Kept call_id nonce (suc k) ps (check_replay p.0 p.1 d).0 (omega arith)
        (check_replay-Kept call_id nonce k p d (omega arith) kept)

  check_replay-fresh :
      (call_id : String) (nonce : List ℕ) (d : DriverTask Channel Crypto)
      → (check_replay call_id nonce d).1 ≡ false
      → Kept call_id nonce 0 (check_replay call_id nonce d).0.recent_nonces
  unfolding check_replay Kept
  check_replay-fresh call_id nonce d h = elim (Bool-cases (seen d.recent_nonces call_id nonce)) [
    | inl old ↦ cc
    | inr new ↦ rw new (_, [], refl, omega arith)
  ]

  -- A (call, nonce) pair that was accepted as fresh is reported as a replay if it comes again
  -- after at most fifteen other checks, whatever those check.
  pub check_replay-check_all :
      (call_id : String) (nonce : List ℕ) (ps : List (String × List ℕ))
      (d : DriverTask Channel Crypto)
      → (check_replay call_id nonce d).1 ≡ false
      → length ps ≤ 15
      → (check_replay call_id nonce (check_all ps (check_replay call_id nonce d).0)).1 ≡ true
  unfolding check_replay
  check_replay-check_all call_id nonce ps d fresh h =
      rw
        (check_all-Kept call_id nonce 0 ps (check_replay call_id nonce d).0 (omega arith)
          (check_replay-fresh call_id nonce d fresh))
        refl
