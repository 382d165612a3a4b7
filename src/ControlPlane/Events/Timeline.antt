-- ===== src/ControlPlane/Events/Timeline.antt =====
-- apps/api/src/phulax_api/routers/events.py: what an ingested event does to what can be read.
use mathlib.Core.Path.{subst}
use mathlib.Core.List.{reverse-append, append-nil}
use phulax.Prelude.{
  ℕ, Bool, true, false, Option, none, List, [], ◌∷◌, ◌++◌, ◌≡◌, refl, inl, inr, ap, arith, ◌==◌,
  any, any-append, All, All-append, take, take-take, sym, if◌then◌else◌, ok, Option-cases,
  Bool-cases,
}
use phulax.ControlPlane.Tables.{find}
use phulax.ControlPlane.Db.{ActionRequest, Event, decision_event, Db}
use phulax.ControlPlane.Events.{
  EventIngest, EventOut, is_some_id, request_of, join, project, event_out, timeline_event_out,
  is_request, is_traced, list_events, timeline, agent_of, tool_id_of, new_request, ingest_event,
}

module _ {J : Type 0} where
  -- The foreign key of `events`.
  abbrev pub refers : List (ActionRequest J) → Event J → Bool
  refers requests e = any (λ r. r.id == request_of e) requests

  abbrev pub AllRefer : Db J → Type 0
  AllRefer db = All (λ e. refers db.action_requests e ≡ true) db.events

  find-append :
      (p : ActionRequest J → Bool) (xs ys : List (ActionRequest J))
      → any p xs ≡ true
      → find p (xs ++ ys) ≡ find p xs
  unfolding find
  find-append p [] ys h = cc
  find-append p (x ∷ xs) ys h = ground (arith, find-append p xs ys)

  find-append_none :
      (p : ActionRequest J → Bool) (xs ys : List (ActionRequest J))
      → any p xs ≡ false
      → find p (xs ++ ys) ≡ find p ys
  unfolding find
  find-append_none p [] ys h = refl
  find-append_none p (x ∷ xs) ys h = ground (arith, find-append_none p xs ys)

  -- A request that is added does not change how the events before it are joined.
  join-requests :
      (requests : List (ActionRequest J)) (events : List (Event J)) (r : ActionRequest J)
      → All (λ e. refers requests e ≡ true) events
      → join (requests ++ (r ∷ [])) events ≡ join requests events
  unfolding join
  join-requests requests [] r h = refl
  join-requests requests (e ∷ events) r (h, hs) =
      let same = find-append (λ r. r.id == request_of e) requests (r ∷ []) h in
      let rest = join-requests requests events r hs in
      elim (Option-cases (find (λ r. r.id == request_of e) requests)) [
        | inl n ↦ ground arith
        | inr (q, n) ↦ ground arith
      ]

  join-append :
      (requests : List (ActionRequest J)) (xs ys : List (Event J))
      → join requests (xs ++ ys) ≡ join requests xs ++ join requests ys
  unfolding join
  join-append requests [] ys = refl
  join-append requests (x ∷ xs) ys =
      elim (Option-cases (find (λ r. r.id == request_of x) requests)) [
        | inl e ↦ ground (arith, join-append requests xs ys)
        | inr (r, e) ↦ ground (arith, join-append requests xs ys)
      ]

  -- The row of a new request is joined to its event.
  join-new :
      (requests : List (ActionRequest J)) (events : List (Event J)) (r : ActionRequest J)
      (e : Event J)
      → All (λ e. refers requests e ≡ true) events
      → refers requests e ≡ false
      → (r.id == request_of e) ≡ true
      → join (requests ++ (r ∷ [])) (events ++ (e ∷ [])) ≡ join requests events ++ ((r, e) ∷ [])
  unfolding join find
  join-new requests events r e h fresh own =
      let found = find-append_none (λ r. r.id == request_of e) requests (r ∷ []) fresh in
      rw (join-append (requests ++ (r ∷ [])) events (e ∷ []), join-requests requests events r h)
        (ap (λ rest. join requests events ++ rest) (ground arith))

  project-append :
      {B : Type 0} (p : ActionRequest J → Bool) (out : ActionRequest J → Event J → B)
      (xs ys : List (ActionRequest J × Event J))
      → project p out (xs ++ ys) ≡ project p out xs ++ project p out ys
  unfolding project
  project-append p out [] ys = refl
  project-append p out ((r, e) ∷ xs) ys = ground (arith, project-append p out xs ys)

  refers-append :
      (requests : List (ActionRequest J)) (r : ActionRequest J) (events : List (Event J))
      → All (λ e. refers requests e ≡ true) events
      → All (λ e. refers (requests ++ (r ∷ [])) e ≡ true) events
  refers-append requests r [] h = tt
  refers-append requests r (e ∷ events) (h, hs) = (
    rw (any-append (λ q. q.id == request_of e) requests (r ∷ []), h) refl,
    refers-append requests r events hs,
  )

  -- The two insertions.
  abbrev pub add_event : ActionRequest J → Event J → Db J → Db J
  add_event r e db = record db {
    action_requests = db.action_requests ++ (r ∷ []);
    events = db.events ++ (e ∷ []);
  }

  abbrev IsShown : ActionRequest J → Event J → Db J → Db J → Type 0
  IsShown r e db db' =
      AllRefer db'
      × ((trace_id : ℕ)
          → timeline trace_id db' ≡ (
              if is_some_id trace_id r.trace_id
              then timeline trace_id db ++ (timeline_event_out r e ∷ [])
              else timeline trace_id db))
      × (list_events none db' ≡ take 100 (event_out r e ∷ list_events none db))

  add_event-IsShown :
      (r : ActionRequest J) (e : Event J) (db : Db J)
      → AllRefer db
      → refers db.action_requests e ≡ false
      → (r.id == request_of e) ≡ true
      → IsShown r e db (add_event r e db)
  unfolding timeline list_events project take
  add_event-IsShown r e db h fresh own =
      let joined = join-new db.action_requests db.events r e h fresh own in
      let before = join db.action_requests db.events in
      (
        All-append (λ q. refers (db.action_requests ++ (r ∷ [])) q ≡ true) db.events (e ∷ [])
            (refers-append db.action_requests r db.events h)
            (
              rw (any-append (λ q. q.id == request_of e) db.action_requests (r ∷ []), fresh, own)
                  refl,
              tt,
            ),
        λ trace_id.
            rw (joined, project-append (is_traced trace_id) timeline_event_out before ((r, e) ∷ []))
              (elim (Bool-cases (is_some_id trace_id r.trace_id)) [
                | inl t ↦ rw t refl
                | inr n ↦ rw n (append-nil _)
              ]),
        rw
            (
              joined,
              project-append (is_request none) event_out before ((r, e) ∷ []),
              reverse-append (project (is_request none) event_out before) (event_out r e ∷ []),
            )
            (ap (λ ys. event_out r e ∷ ys) (sym (take-take 99 _))),
      )

  pub ingest_event-ok :
      (new_id : ℕ) (body : EventIngest J) (db db' : Db J) (out : EventOut J)
      → ingest_event new_id body db ≡ ok (out, db')
      → (tool_id : Option ℕ) × (let r = new_request new_id tool_id body.action_request in
          let e = decision_event new_id body.event in
          (out ≡ event_out r e) × (db' ≡ add_event r e db))
  unfolding ingest_event
  ingest_event-ok new_id body db db' out h =
      elim (Option-cases (find (λ s. s.id == body.action_request.session_id) db.sessions)) [
        | inl n ↦ ground arith
        | inr (s, n) ↦ (
          tool_id_of (agent_of s db) body.action_request.tool_name db,
          (ground arith, ground arith),
        )
      ]

  -- An event that is ingested with a new id, in tables whose events all refer to a recorded
  -- request, refers to a recorded request of its own; it comes last on the timeline of its trace
  -- and on no other, and first among the events that are listed, which are a hundred at most. The
  -- rest of what is read stays as it was, and all events still refer to a recorded request.
  pub ingest_event-timeline :
      (new_id : ℕ) (body : EventIngest J) (db db' : Db J) (out : EventOut J)
      → AllRefer db
      → any (λ r. r.id == new_id) db.action_requests ≡ false
      → ingest_event new_id body db ≡ ok (out, db')
      → AllRefer db'
        × (tool_id : Option ℕ) × (let r = new_request new_id tool_id body.action_request in
            let e = decision_event new_id body.event in
            ((trace_id : ℕ)
              → timeline trace_id db' ≡ (
                  if is_some_id trace_id r.trace_id
                  then timeline trace_id db ++ (timeline_event_out r e ∷ [])
                  else timeline trace_id db))
            × (list_events none db' ≡ take 100 (event_out r e ∷ list_events none db))
            × (out ≡ event_out r e))
  ingest_event-timeline new_id body db db' out refers_all fresh h =
      let (tool_id, (shown, same)) = ingest_event-ok new_id body db db' out h in
      let r : ActionRequest J = new_request new_id tool_id body.action_request in
      let e : Event J = decision_event new_id body.event in
      let own : (new_id == new_id) ≡ true = ground arith in
      let (all, times, listed) =
        subst (IsShown r e db) (sym same) (add_event-IsShown r e db refers_all fresh own) in
      (all, tool_id, (times, listed, shown))
