-- ===== src/Client/System/Ending.antt =====
-- src/client.cpp: how a stream ends, and how the client does.
use rgrpc.Prelude.{
  ℕ, ◌+◌, ◌<◌, ◌≡◌, refl, sym, ◌∙◌, subst, ap, inl, inr, Bool, true, false, List, [], ◌∷◌, some,
  none, arith, find, find-erase, erase, length, Option-cases, some-injective, push_back,
}
use rgrpc.Client.Types.{TagKind, EvKind, Ctag, StreamState, Client, Filled, Completion}
use rgrpc.Client.Stream.{
  Locked, status_event, on_tag, on_finish, s_post_read_locked, s_pump_writes_locked,
  s_try_finish_locked,
}
use rgrpc.Client.Stream.Rules.{on_start_rule, on_read_rule, on_write_rule, on_wdone_rule}
use rgrpc.Client.Stream.Handlers.{taken}
use rgrpc.Client.Completion.{
  outstanding, take_tag, post_tags, store_stream, complete, complete_all, complete_stream,
  complete_call, dispatch, s_maybe_free_locked,
}
use rgrpc.Client.Lifecycle.{begin_shutdown, end_shutdown, client_shutdown}
use rgrpc.Client.Frame.{store_stream_lem}
use rgrpc.Client.Invariant.{held, IsStream, IsValid}
use rgrpc.Client.Invariant.Completions.{complete-IsValid}
use rgrpc.Client.Invariant.Cancelling.{begin_shutdown-IsValid}
use rgrpc.Client.System.{Reach, Reach-IsValid}

-- The round of a Finish, in full.
finished : ℕ → Filled → StreamState → Client → Client
finished i f s c =
    let d =
      store_stream i (on_finish f (taken s)) (record c { cq = take_tag i TagKind.finish c.cq }) in
    record d { streams = erase i d.streams }

finish_round :
    (i : ℕ) (ok : Bool) (f : Filled) (s : StreamState) (c : Client)
    → IsStream c.cq c.ready i s
    → find i c.streams ≡ some s
    → 0 < outstanding i TagKind.finish c.cq
    → complete (record { tag = record { obj = i; kind = TagKind.finish }; ok = ok; filled = f }) c
      ≡ some (finished i f s c)
unfolding finished complete dispatch complete_stream on_tag s_maybe_free_locked on_finish
finish_round i ok f s c h found out = ground (arith, found, h.named, h.sound, h.tags TagKind.finish)

finished-ready :
    (i : ℕ) (f : Filled) (s : StreamState) (c : Client)
    → s.id ≡ i
    → (finished i f s c).ready ≡ push_back c.ready (status_event EvKind.status i f)
unfolding finished on_finish
finished-ready i f s c named =
    ap (λ (d : Client). d.ready)
      (store_stream_lem i (on_finish f (taken s))
        (record c { cq = take_tag i TagKind.finish c.cq }))
    ∙ ap (λ j. push_back c.ready (status_event EvKind.status j f)) named

finished-streams :
    (i : ℕ) (f : Filled) (s : StreamState) (c : Client) → find i (finished i f s c).streams ≡ none
unfolding finished
finished-streams i f s c = ground (
  arith,
  find-erase i i
      (store_stream i (on_finish f (taken s))
        (record c { cq = take_tag i TagKind.finish c.cq })).streams,
)

-- In a client that can be reached, the round in which the Finish of a stream comes back queues the
-- status event of that stream behind all other events, deletes the stream in the same critical section,
-- and leaves no tag of it outstanding.
pub finish_frees :
    {c : Client} (r : Reach c) (i : ℕ) (s : StreamState) (ok : Bool) (f : Filled)
    → find i c.streams ≡ some s
    → 0 < outstanding i TagKind.finish c.cq
    → (d : Client) × (complete
          (record { tag = record { obj = i; kind = TagKind.finish }; ok = ok; filled = f })
          c
        ≡ some d)
      × (d.ready ≡ push_back c.ready (status_event EvKind.status i f))
      × (find i d.streams ≡ none)
      × ((k : TagKind) → held d.cq i k ≡ 0)
finish_frees {c} r i s ok f found out =
    let v = Reach-IsValid r in
    let h = v.streams i s found in
    let e : Completion = record {
      tag = record { obj = i; kind = TagKind.finish };
      ok = ok;
      filled = f;
    } in
    let (d, done, valid) = complete-IsValid e c v out in
    let same : d ≡ finished i f s c =
      some-injective _ _ (sym done ∙ finish_round i ok f s c h found out) in
    let gone : find i d.streams ≡ none =
      ap (λ (x : Client). find i x.streams) same ∙ finished-streams i f s c in
    (
      d,
      done,
      ap (λ (x : Client). x.ready) same ∙ finished-ready i f s c h.named,
      gone,
      valid.no_stream i gone,
    )

abbrev PostsNothing : Locked → Type 0
PostsNothing w = w.posted ≡ []

module _ (w : Locked) (h : PostsNothing w) where
  reads_nothing : PostsNothing (s_post_read_locked true w)
  unfolding s_post_read_locked
  reads_nothing = h

  pumps_nothing : PostsNothing (s_pump_writes_locked true w)
  unfolding s_pump_writes_locked
  pumps_nothing = h

  finishes_nothing : PostsNothing (s_try_finish_locked true w)
  unfolding s_try_finish_locked
  finishes_nothing = h

on_tag-PostsNothing :
    (kind : TagKind) (ok : Bool) (f : Filled) (s : StreamState)
    → PostsNothing (on_tag true kind ok f s)
unfolding on_tag on_finish
on_tag-PostsNothing TagKind.start ok f s =
    on_start_rule PostsNothing true (λ w _. reads_nothing w) pumps_nothing finishes_nothing ok
      (taken s) (reads_nothing _ refl) refl
on_tag-PostsNothing TagKind.read ok f s =
    on_read_rule PostsNothing true (λ w _. reads_nothing w) pumps_nothing finishes_nothing ok f
      (taken s) (λ _. refl) refl
on_tag-PostsNothing TagKind.write ok f s =
    on_write_rule PostsNothing true (λ w _. reads_nothing w) pumps_nothing finishes_nothing ok
      (taken s) (λ _ _. refl) (λ _ _. refl) refl
on_tag-PostsNothing TagKind.wdone ok f s =
    on_wdone_rule PostsNothing true (λ w _. reads_nothing w) pumps_nothing finishes_nothing ok
      (taken s) refl refl
on_tag-PostsNothing TagKind.finish ok f s = refl
on_tag-PostsNothing TagKind.unary ok f s = refl

length-take_tag :
    (i : ℕ) (k : TagKind) (cq : List Ctag)
    → 0 < outstanding i k cq
    → length (take_tag i k cq) + 1 ≡ length cq
unfolding take_tag
length-take_tag i k [] h = elim h [ ]
length-take_tag i k (t ∷ cq) h = ground (arith, length-take_tag i k cq)

complete_stream-cq :
    (k : TagKind) (ok : Bool) (f : Filled) (s : StreamState) (c : Client)
    → c.shutting ≡ true
    → ((complete_stream k ok f s c).cq ≡ c.cq) × ((complete_stream k ok f s c).shutting ≡ true)
unfolding complete_stream s_maybe_free_locked post_tags
complete_stream-cq k ok f s c up =
    let w = on_tag c.shutting k ok f s in
    let quiet : w.posted ≡ [] =
      subst (λ b. (on_tag b k ok f s).posted ≡ []) (sym up) (on_tag-PostsNothing k ok f s) in
    ground (arith, quiet, up, store_stream_lem s.id w c)

dispatch-cq :
    (k : TagKind) (i : ℕ) (ok : Bool) (f : Filled) (c d : Client)
    → c.shutting ≡ true
    → dispatch k i ok f c ≡ some d
    → (d.cq ≡ c.cq) × (d.shutting ≡ true)
unfolding dispatch complete_call
dispatch-cq TagKind.unary i ok f c d up e = ground arith
dispatch-cq k i ok f c d up e = elim (Option-cases (find i c.streams)) [
  | inl gone ↦ let e1 = rw (gone, dispatch) at e in cc
  | inr (s, found) ↦
      subst (λ (x : Client). (x.cq ≡ c.cq) × (x.shutting ≡ true))
        (some-injective _ _ (rw (found, dispatch) at e)) (complete_stream-cq k ok f s c up)
]

-- While the client shuts down, a round takes one tag off the queue and puts none on it.
complete-cq :
    (e : Completion) (c d : Client)
    → c.shutting ≡ true
    → 0 < outstanding e.tag.obj e.tag.kind c.cq
    → complete e c ≡ some d
    → (length d.cq + 1 ≡ length c.cq) × (d.shutting ≡ true)
unfolding complete
complete-cq e c d up out done =
    let (same, still) = dispatch-cq e.tag.kind e.tag.obj e.ok e.filled _ d up done in
    (ap (λ l. length l + 1) same ∙ length-take_tag e.tag.obj e.tag.kind c.cq out, still)

-- What the queue returns until it is empty, each tag once.
pub data Drain : List Completion → Client → Type 0 where
  dry : {c : Client} → c.cq ≡ [] → Drain [] c
  turn :
      {es : List Completion} {c : Client} (e : Completion)
      → 0 < outstanding e.tag.obj e.tag.kind c.cq
      → ((d : Client) → complete e c ≡ some d → Drain es d)
      → Drain (e ∷ es) c

Drain-ends :
    {es : List Completion} {c : Client}
    → IsValid c
    → c.shutting ≡ true
    → Drain es c
    → (length es ≡ length c.cq) × ((d : Client) × (complete_all es c ≡ some d) × (d.cq ≡ []))
unfolding complete_all
Drain-ends {c = c} v up (dry empty) = (ap length (sym empty), (c, refl, empty))
Drain-ends {c = c} v up (turn {es = es} e out rest) =
    let (d, done, valid) = complete-IsValid e c v out in
    let (shorter, still) = complete-cq e c d up out done in
    let (rounds, (last, all_done, empty)) = Drain-ends valid still (rest d done) in
    (omega arith, (last, rw (done, complete_all) all_done, empty))

-- When a client that can be reached is shut down, the completion thread runs exactly one round for each
-- tag that is outstanding at that moment, in any order in which the queue returns them, since no round
-- starts an operation; each round finds its object; and nothing is left on the queue or in the client.
pub shutdown_drains :
    {c : Client} (r : Reach c) {es : List Completion}
    → c.closed ≡ false
    → Drain es (begin_shutdown c)
    → (length es ≡ length c.cq)
      × ((d : Client) × (client_shutdown es c ≡ some d)
          × (d.cq ≡ [])
          × (d.calls ≡ [])
          × (d.streams ≡ [])
          × (d.ready ≡ []))
unfolding begin_shutdown client_shutdown end_shutdown
shutdown_drains {c} r {es} up run =
    let (rounds, (last, all_done, empty)) =
      Drain-ends (begin_shutdown-IsValid c (Reach-IsValid r)) refl run in
    (rounds, (end_shutdown last, rw (up, all_done, client_shutdown) refl, empty, refl, refl, refl))
