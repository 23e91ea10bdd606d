-- ===== src/Client/System/Progress.antt =====
-- src/client.cpp: which operations of a stream are under way between critical sections.
use rgrpc.Prelude.{
  if_rule, ℕ, ◌≤◌, ◌<◌, pos, pos_part, ℤ, ltb_ℤ, Bool, true, false, not, ◌&&◌, ◌≡◌, inl, inr, sym,
  subst, List, [], ◌∷◌, some, arith, find, insert, find-insert-some, find-erase-some, Option-cases,
  Bool-cases, some-injective, is_zero, is_empty, suc,
}
use rgrpc.Client.Types.{TagKind, is_smsg, ClEvent, StreamState, Client, ClientContext, Filled}
use rgrpc.Client.Stream.{Locked, on_tag, send_locked, writes_done_locked, take_unread}
use rgrpc.Client.Stream.Discipline.{IsSound}
use rgrpc.Client.Stream.Progress.{
  IsLive, on_tag-IsLive, send_locked-IsLive, writes_done_locked-IsLive, take_unread-IsLive,
}
use rgrpc.Client.Invariant.Polling.{deliver_other, deliver_stream}
use rgrpc.Wake.{wake_drain, wake_open}
use rgrpc.Client.Lifecycle.{create_client, begin_shutdown}
use rgrpc.Client.Completion.{
  outstanding, take_tag, store_stream, s_maybe_free_locked, complete, complete_stream,
  complete_call, dispatch,
}
use rgrpc.Client.Api.{
  on_stream, cancel_stream, cancel_locked, start_stream_locked, start_call_locked,
}
use rgrpc.Client.Poll.{deliver, take_events, take_batch}
use rgrpc.Client.Frame.{smsgs_of, store_stream_lem}
use rgrpc.Client.Invariant.{held, IsValid}
use rgrpc.Client.System.{
  Step, Reach, Reach-IsValid, completes, starts_call, starts_stream, sends, half_closes, cancels,
  waits, polls, shuts, created, later,
}

abbrev AllLive : Client → Type 0
AllLive c = c.shutting ≡ false → (i : ℕ) (s : StreamState) → find i c.streams ≡ some s → IsLive s

store_stream-AllLive :
    (i : ℕ) (w : Locked) (c : Client)
    → AllLive c
    → (c.shutting ≡ false → IsLive w.stream)
    → AllLive (store_stream i w c)
store_stream-AllLive i w c l h = rw (store_stream_lem i w c) stored
  where
    stored :
        (c.shutting ≡ false)
        → (j : ℕ) (s : StreamState) → find j (insert i w.stream c.streams) ≡ some s
        → IsLive s
    stored up j s e = elim (find-insert-some j i w.stream s c.streams e) [
      | inl (_, same) ↦ subst IsLive same (h up)
      | inr (_, old) ↦ l up j s old
    ]

s_maybe_free_locked-AllLive :
    (s : StreamState) (c : Client) → AllLive c → AllLive (s_maybe_free_locked s c)
unfolding s_maybe_free_locked
s_maybe_free_locked-AllLive s c l =
    if_rule AllLive (is_zero s.pending && s.status_emitted)
      (λ _ up i t e. l up i t (find-erase-some i s.id t c.streams e).1) (λ _. l)

on_tag_up :
    (k : TagKind) (ok : Bool) (f : Filled) (i : ℕ) (s : StreamState) (c : Client)
    → IsValid c
    → AllLive c
    → find i c.streams ≡ some s
    → 0 < held c.cq i k
    → c.shutting ≡ false
    → IsLive (on_tag c.shutting k ok f s).stream
on_tag_up k ok f i s c v l e out up =
    let h = v.streams i s e in
    subst (λ b. IsLive (on_tag b k ok f s).stream) (sym up)
      (on_tag-IsLive ok f s h.sound (l up i s e) k (omega (arith, h.tags k)))

complete_stream-AllLive :
    (k : TagKind) (ok : Bool) (f : Filled) (i : ℕ) (s : StreamState) (c : Client)
    → IsValid c
    → AllLive c
    → find i c.streams ≡ some s
    → 0 < held c.cq i k
    → AllLive (complete_stream k ok f s (record c { cq = take_tag i k c.cq }))
unfolding complete_stream
complete_stream-AllLive k ok f i s c v l e out =
    s_maybe_free_locked-AllLive (on_tag c.shutting k ok f s).stream _ (
      store_stream-AllLive s.id (on_tag c.shutting k ok f s) (record c { cq = take_tag i k c.cq }) l
        (on_tag_up k ok f i s c v l e out))

dispatch-AllLive :
    (k : TagKind) (i : ℕ) (ok : Bool) (f : Filled) (c d : Client)
    → IsValid c
    → AllLive c
    → 0 < outstanding i k c.cq
    → dispatch k i ok f (record c { cq = take_tag i k c.cq }) ≡ some d
    → AllLive d
unfolding dispatch complete_call
dispatch-AllLive TagKind.unary i ok f c d v l out e = elim (Option-cases (find i c.calls)) [
  | inl gone ↦ let e1 = rw (gone, dispatch) at e in cc
  | inr (cs, found) ↦ subst AllLive (some-injective _ _ (rw (found, dispatch) at e)) l
]
dispatch-AllLive k i ok f c d v l out e = elim (Option-cases (find i c.streams)) [
  | inl gone ↦ let e1 = rw (gone, dispatch) at e in cc
  | inr (s, found) ↦
      subst AllLive (some-injective _ _ (rw (found, dispatch) at e))
        (complete_stream-AllLive k ok f i s c v l found out)
]

on_stream-AllLive :
    (want : ℕ) (f : StreamState → Locked × Bool) (c : Client)
    → IsValid c
    → AllLive c
    → ((s : StreamState) → IsSound s → IsLive s → c.shutting ≡ false → IsLive (f s).0.stream)
    → AllLive (on_stream want f c).0
unfolding on_stream
on_stream-AllLive want f c v l keeps = elim (Option-cases (find want c.streams)) [
  | inl gone ↦ rw (gone, on_stream) l
  | inr (s, found) ↦
      rw (found, on_stream)
        (store_stream-AllLive want (f s).0 c l
          (λ up. keeps s (v.streams want s found).sound (l up want s found) up))
]

deliver-AllLive : (ev : ClEvent) (c : Client) → AllLive c → AllLive (deliver ev c)
deliver-AllLive ev c l = elim (Bool-cases (is_smsg ev.kind)) [
  | inr other ↦ subst AllLive (sym (deliver_other ev c (inl other))) l
  | inl message ↦ elim (Option-cases (find ev.id c.streams)) [
    | inl gone ↦ subst AllLive (sym (deliver_other ev c (inr gone))) l
    | inr (s, found) ↦ subst AllLive (sym (deliver_stream ev c s message found)) (
        store_stream-AllLive ev.id (take_unread c.shutting s) c l (λ up.
          subst (λ b. IsLive (take_unread b s).stream) (sym up)
            (take_unread-IsLive s (l up ev.id s found))))
  ]
]

take_events-AllLive :
    (p : ClEvent → Bool) (maxn : ℤ) (n : ℕ) (evs : List ClEvent) (c : Client)
    → AllLive c
    → AllLive (take_events p maxn n evs c).client
unfolding take_events
take_events-AllLive p maxn n [] c l = l
take_events-AllLive p maxn n (ev ∷ evs) c l = elim (Bool-cases (ltb_ℤ (pos n) maxn)) [
  | inr full ↦ rw (full, take_events) l
  | inl room ↦ elim (Bool-cases (p ev)) [
    | inl match ↦
        rw (room, match, take_events)
          (take_events-AllLive p maxn (suc n) evs (deliver ev c) (deliver-AllLive ev c l))
    | inr other ↦ rw (room, other, take_events) (take_events-AllLive p maxn n evs c l)
  ]
]

take_batch-AllLive :
    (p : ClEvent → Bool) (maxn : ℤ) (c : Client) → AllLive c → AllLive (take_batch p maxn c).1
unfolding take_batch
take_batch-AllLive p maxn c l =
    let r = take_events p maxn 0 c.ready (record c { wake = wake_drain c.wake }) in
    if_rule AllLive (not (is_empty r.left))
      (λ _. take_events-AllLive p maxn 0 c.ready (record c { wake = wake_drain c.wake }) l)
      (λ _. take_events-AllLive p maxn 0 c.ready (record c { wake = wake_drain c.wake }) l)

cancel_stream-IsLive : (s : StreamState) → IsLive s → IsLive (cancel_stream s)
cancel_stream-IsLive s l = record { reads = l.reads; writes = l.writes; finishes = l.finishes }

cancel_locked-AllLive : (want : ℕ) (c : Client) → AllLive c → AllLive (cancel_locked want c)
unfolding cancel_locked
cancel_locked-AllLive want c l up = elim (Option-cases (find want c.streams)) [
  | inl gone ↦ rw (gone, cancel_locked) (l up)
  | inr (s, found) ↦
      rw (found, cancel_locked)
        (λ j t e. elim (find-insert-some j want (cancel_stream s) t c.streams e) [
          | inl (_, same) ↦ subst IsLive same (cancel_stream-IsLive s (l up want s found))
          | inr (_, old) ↦ l up j t old
        ])
]

start_stream_locked-AllLive :
    (ctx : ClientContext) (read_cap write_cap : ℤ) (c : Client)
    → AllLive c
    → AllLive (start_stream_locked ctx read_cap write_cap c).0
unfolding start_stream_locked
start_stream_locked-AllLive ctx read_cap write_cap c l up j t e =
    elim (find-insert-some j c.next_id _ t c.streams e) [
      | inl (_, same) ↦
          subst IsLive same (record { reads = λ e. cc; writes = λ e. cc; finishes = λ e. cc })
      | inr (_, old) ↦ l up j t old
    ]

Step-AllLive : {c d : Client} → IsValid c → AllLive c → Step c d → AllLive d
unfolding start_call_locked begin_shutdown
Step-AllLive {c} v l (completes e d out done) =
    dispatch-AllLive e.tag.kind e.tag.obj e.ok e.filled c d v l out (unfold complete in done)
Step-AllLive v l (starts_call ctx _ room) = l
Step-AllLive {c} v l (starts_stream ctx r w _ room) = start_stream_locked-AllLive ctx r w c l
Step-AllLive {c} v l (sends id bytes _) = on_stream-AllLive id _ c v l λ s sound live up.
    subst (λ b. IsLive (send_locked b bytes s).0.stream) (sym up)
      (send_locked-IsLive s sound live bytes)
Step-AllLive {c} v l (half_closes id _) = on_stream-AllLive id _ c v l λ s sound live up.
    subst (λ b. IsLive (writes_done_locked b s).0.stream) (sym up)
      (writes_done_locked-IsLive s sound live)
Step-AllLive {c} v l (cancels id _) = cancel_locked-AllLive id c l
Step-AllLive v l (waits _) = l
Step-AllLive {c} v l (polls p maxn _) = take_batch-AllLive p maxn c l
Step-AllLive v l (shuts _) = λ up. cc

create_client-AllLive :
    (capacity : ℕ) (c : Client) → create_client true capacity ≡ some c → AllLive c
unfolding create_client wake_open find
create_client-AllLive capacity c e = subst AllLive (some-injective _ _ e) (λ _ i s e. cc)

Reach-AllLive : {c : Client} → Reach c → AllLive c
Reach-AllLive (created c capacity e) = create_client-AllLive capacity c e
Reach-AllLive (later r st) = Step-AllLive (Reach-IsValid r) (Reach-AllLive r) st

-- In a client that can be reached and is not shutting down, take a live stream with no operation
-- outstanding. Then as many of its messages as its read cap (none, if the cap is not positive) wait in
-- `ready`, its reads have not ended, it is not broken, and no message is queued for writing.
pub no_stall :
    {c : Client} (r : Reach c) (i : ℕ) (s : StreamState)
    → c.shutting ≡ false
    → find i c.streams ≡ some s
    → ((k : TagKind) → held c.cq i k ≡ 0)
    → (pos_part s.read_cap ≤ smsgs_of i c.ready)
      × (s.broken ≡ false)
      × (s.reads_closed ≡ false)
      × (s.write_queue ≡ [])
no_stall {c} r i s up found quiet =
    let h = (Reach-IsValid r).streams i s found in
    let l = Reach-AllLive r up i s found in
    ground (
      arith,
      h.sound,
      l,
      h.backlog,
      h.alive,
      h.tags TagKind.start,
      quiet TagKind.start,
      h.tags TagKind.read,
      quiet TagKind.read,
      h.tags TagKind.write,
      quiet TagKind.write,
      h.tags TagKind.wdone,
      quiet TagKind.wdone,
      h.tags TagKind.finish,
      quiet TagKind.finish,
    )
