-- ===== src/Client/Poll.antt =====
-- src/client.cpp: `grpc_r_client_poll`.
pub mod Batch
pub mod Call
use rgrpc.Prelude.{
  ℕ, suc, ℤ, pos, ltb_ℤ, Bool, true, false, not, ◌&&◌, List, [], ◌∷◌, ◌==◌, if◌then◌else◌, Option,
  none, some, is_empty, any, find,
}
use rgrpc.Wake.{wake_signal, wake_drain}
use rgrpc.Client.Types.{is_smsg, ClEvent, Client, Completion}
use rgrpc.Client.Stream.{take_unread}
use rgrpc.Client.Completion.{store_stream, complete_all}

-- `only_id`; `none` is NULL.
abbrev pub matches : Option ℕ → ClEvent → Bool
matches none ev = true
matches (some want) ev = ev.id == want

-- What the removal of an event from `ready` does to its stream.
unfoldable pub deliver : ClEvent → Client → Client
unfolding take_unread store_stream
deliver ev c =
    if is_smsg ev.kind
    then (elim (find ev.id c.streams) [
      | none ↦ c
      | some s ↦ store_stream ev.id (take_unread c.shutting s) c
    ])
    else c

pub record Taken : Type 0 where
  pub batch : List ClEvent
  pub left : List ClEvent
  pub client : Client

-- The loop from `it` on, with `n` events in the batch: what joins the batch, what stays in `ready`.
unfoldable pub take_events : (ClEvent → Bool) → ℤ → ℕ → List ClEvent → Client → Taken
unfolding deliver
take_events p maxn n [] c = record { batch = []; left = []; client = c }
take_events p maxn n (ev ∷ evs) c = elim (ltb_ℤ (pos n) maxn) [
  | false ↦ record { batch = []; left = ev ∷ evs; client = c }
  | true ↦ elim (p ev) [
    | false ↦
        let r = take_events p maxn n evs c in
        record { batch = r.batch; left = ev ∷ r.left; client = r.client }
    | true ↦
        let r = take_events p maxn (suc n) evs (deliver ev c) in
        record { batch = ev ∷ r.batch; left = r.left; client = r.client }
  ]
]

-- From `wake_drain` to the end of the critical section.
unfoldable pub take_batch : (ClEvent → Bool) → ℤ → Client → List ClEvent × Client
unfolding take_events
take_batch p maxn c =
    let r = take_events p maxn 0 c.ready (record c { wake = wake_drain c.wake }) in
    let c1 = record r.client { ready = r.left } in
    (r.batch, if not (is_empty r.left) then record c1 { wake = wake_signal c1.wake } else c1)

-- One round of the wait: the milliseconds left until the deadline, what the completion thread does
-- while the mutex is free, and the answer of `wake_poll`.
pub record Round : Type 0 where
  pub remaining : ℤ
  pub meanwhile : List Completion
  pub polled : ℤ

pub data Waited : Type 0 where
  over : Client → Waited  -- the loop has ended
  waiting : Client → Waited  -- the rounds given are over, and the loop is not
  fault : Waited  -- the completion thread met a deleted object

abbrev pub is_positive : ℤ → Bool
is_positive x = ltb_ℤ (pos 0) x

unfoldable pub wait_loop : ℤ → (ClEvent → Bool) → List Round → Client → Waited
unfolding complete_all
wait_loop timeout p [] c = if any p c.ready then over c else waiting c
wait_loop timeout p (r ∷ rs) c = elim (any p c.ready) [
  | true ↦ over c
  | false ↦
      let drained = record c { wake = wake_drain c.wake } in
      elim (is_positive timeout && not (is_positive r.remaining)) [
        | true ↦ over drained
        | false ↦ elim (complete_all r.meanwhile drained) [
          | none ↦ fault
          | some c1 ↦ elim (is_positive r.polled) [
            | false ↦ over c1
            | true ↦ wait_loop timeout p rs c1
          ]
        ]
      ]
]

abbrev pub is_zero_timeout : ℤ → Bool
is_zero_timeout (pos n) = n == 0
is_zero_timeout _ = false

-- The wait of `grpc_r_client_poll`.
unfoldable pub wait_for : ℤ → (ClEvent → Bool) → List Round → Client → Waited
unfolding wait_loop
wait_for timeout p rounds c =
    if is_zero_timeout timeout then over c else wait_loop timeout p rounds c
