-- ===== src/Server/Poll.antt =====
-- src/server.cpp: `grpc_r_server2_poll`.
pub mod Call
use rgrpc.Prelude.{
  ℕ, suc, ℤ, pos, ltb_ℤ, Bool, true, false, not, ◌&&◌, List, [], ◌∷◌, ◌==◌, if◌then◌else◌, Option,
  none, some, is_empty, any,
}
use rgrpc.Wake.{wake_signal, wake_drain}
use rgrpc.Server.Types.{SvEvent, Server, SvCompletion}
use rgrpc.Server.Round.{sv_complete_all}

-- `only_id`; `none` is NULL.
abbrev pub sv_matches : Option ℕ → SvEvent → Bool
sv_matches none ev = true
sv_matches (some want) ev = ev.id == want

-- The loop from `it` on, with `n` events in the batch: what joins the batch, what stays in `ready`.
unfoldable pub sv_take_events :
    (SvEvent → Bool) → ℤ → ℕ → List SvEvent → List SvEvent × List SvEvent
sv_take_events p maxn n [] = ([], [])
sv_take_events p maxn n (ev ∷ evs) = elim (ltb_ℤ (pos n) maxn) [
  | false ↦ ([], ev ∷ evs)
  | true ↦ elim (p ev) [
    | false ↦ let r = sv_take_events p maxn n evs in (r.0, ev ∷ r.1)
    | true ↦ let r = sv_take_events p maxn (suc n) evs in (ev ∷ r.0, r.1)
  ]
]

-- From `wake_drain` to the end of the critical section.
unfoldable pub sv_take_batch : (SvEvent → Bool) → ℤ → Server → List SvEvent × Server
unfolding sv_take_events
sv_take_batch p maxn s =
    let r = sv_take_events p maxn 0 s.ready in
    let s1 = record s { wake = wake_drain s.wake; ready = r.1 } in
    (r.0, if not (is_empty r.1) then record s1 { wake = wake_signal s1.wake } else s1)

-- One round of the wait: the milliseconds left until the deadline, what the completion thread does
-- while the mutex is free, and the answer of `wake_poll`.
pub record SvRound : Type 0 where
  pub remaining : ℤ
  pub meanwhile : List SvCompletion
  pub polled : ℤ

pub data SvWaited : Type 0 where
  over : Server → SvWaited  -- the loop has ended
  waiting : Server → SvWaited  -- the rounds given are over, and the loop is not
  fault : SvWaited  -- the completion thread met a deleted call

abbrev pub sv_positive : ℤ → Bool
sv_positive x = ltb_ℤ (pos 0) x

unfoldable pub sv_wait_loop : ℤ → (SvEvent → Bool) → List SvRound → Server → SvWaited
unfolding sv_complete_all
sv_wait_loop timeout p [] s = if any p s.ready then over s else waiting s
sv_wait_loop timeout p (r ∷ rs) s = elim (any p s.ready) [
  | true ↦ over s
  | false ↦
      let drained = record s { wake = wake_drain s.wake } in
      elim (sv_positive timeout && not (sv_positive r.remaining)) [
        | true ↦ over drained
        | false ↦ elim (sv_complete_all r.meanwhile drained) [
          | none ↦ fault
          | some s1 ↦ elim (sv_positive r.polled) [
            | false ↦ over s1
            | true ↦ sv_wait_loop timeout p rs s1
          ]
        ]
      ]
]

abbrev pub is_sv_zero : ℤ → Bool
is_sv_zero (pos n) = n == 0
is_sv_zero _ = false

-- The wait of `grpc_r_server2_poll`.
unfoldable pub sv_wait_for : ℤ → (SvEvent → Bool) → List SvRound → Server → SvWaited
unfolding sv_wait_loop
sv_wait_for timeout p rounds s =
    if is_sv_zero timeout then over s else sv_wait_loop timeout p rounds s
