-- ===== src/P2p/Driver/Guards.antt =====
-- driver.rs, `record_decrypt_failure`, `check_replay` and `bump_verify_failure`.
use mxdx.Prelude.{
  ℕ, ◌+◌, ◌-◌, ◌%◌, ◌^◌, String, List, [], ◌∷◌, Option, some, none, Bool, true, false, ◌&&◌, ltb,
  leb, if◌then◌else◌, push_back, pop_front, length, any, str_eq,
}
use mxdx.Prelude.Dict.{get, insert}
use mxdx.P2p.State.Effects.{SecurityEventKind, security_event}
use mxdx.P2p.Driver.Types.{DriverTask, decrypt_failure_rate_per_sec, replay_window_size}
use mxdx.Prelude.Bytes.{bytes_eq}
use mxdx.P2p.Driver.Commands.{report}

-- The failures older than one second leave the front of the window.
unfoldable pub drop_old : ℕ → List ℕ → List ℕ
drop_old one_sec_ago [] = []
drop_old one_sec_ago (front ∷ rest) =
    if ltb front one_sec_ago then drop_old one_sec_ago rest else front ∷ rest

unfoldable pub seen : List (List ℕ × String) → String → List ℕ → Bool
unfolding bytes_eq
seen window call_id nonce = any (λ p. bytes_eq p.0 nonce && str_eq p.1 call_id) window

-- `entry(peer).or_insert(0)`
abbrev pub failures_of : Option ℕ → ℕ
failures_of none = 0
failures_of (some n) = n

module _ {Channel Crypto : Type 0} where
  -- `now.checked_sub(1s).unwrap_or(now)`: a clock below one second is its own bound.
  unfoldable pub record_decrypt_failure :
      ℕ → DriverTask Channel Crypto → DriverTask Channel Crypto × Bool
  unfolding drop_old
  record_decrypt_failure now d =
      let one_sec_ago = if leb 1000 now then now - 1000 else now in
      let failures = push_back (drop_old one_sec_ago d.last_decrypt_failures) now in
      (
        record d { last_decrypt_failures = failures },
        ltb decrypt_failure_rate_per_sec (length failures),
      )

  -- `true` if the pair is in the window; a fresh pair is added, and the oldest leaves a full window.
  unfoldable pub check_replay :
      String → List ℕ → DriverTask Channel Crypto → DriverTask Channel Crypto × Bool
  unfolding seen
  check_replay call_id nonce d = if seen d.recent_nonces call_id nonce then (d, true) else (
    record d {
      recent_nonces =
          push_back
            (if leb replay_window_size (length d.recent_nonces)
              then pop_front d.recent_nonces
              else d.recent_nonces)
            (nonce, call_id);
    },
    false,
  )

  -- The counter is a `u32`. The set of locked peers is a list, newest first.
  count_failure : String → ℕ → DriverTask Channel Crypto → DriverTask Channel Crypto × Bool
  count_failure peer counter d =
      let d' = record d { verify_failures = insert peer counter d.verify_failures } in
      if leb 3 counter
      then (
        report (security_event SecurityEventKind.wrong_peer (some peer))
            (record d' { locked_peers = peer ∷ d.locked_peers }),
        true,
      )
      else (d', false)

  unfoldable pub bump_verify_failure :
      String → DriverTask Channel Crypto → DriverTask Channel Crypto × Bool
  unfolding count_failure
  bump_verify_failure peer d =
      count_failure peer ((failures_of (get peer d.verify_failures) + 1) % 2 ^ 32) d
