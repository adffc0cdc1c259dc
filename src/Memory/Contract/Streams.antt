-- ===== src/Memory/Contract/Streams.antt =====
-- Stream numbering, and resumption from a cursor.
use dayu_water_agent.Prelude.{
  zero, suc, length-append, take-append-drop, ap, ◌∙◌, suc, take, length-append, drop, ℕ, ◌+◌, ◌≤◌,
  ◌<◌, String, ◌≡◌, refl, true, some, List, [], ◌∷◌, ◌++◌, arith, eq_refl, length, keep_if,
}
use dayu_water_agent.Dict.{get}
use dayu_water_agent.Dict.Laws.{get-put}
use dayu_water_agent.Json.{Payload}
use dayu_water_agent.Errors.{ok}
use dayu_water_agent.Runtime.State.{is_terminal, StreamEvent, StreamEventType, AgentRun}
use dayu_water_agent.Memory.Store.{MemoryStore, Stamp, new_event}
use dayu_water_agent.Memory.Lifecycle.{append_stream_event, list_stream_events, is_after}
use dayu_water_agent.Memory.Cases.{logged}

-- Sequence numbers count up from `n` without a gap.
abbrev pub Numbered : ℕ → List StreamEvent → Type 0
Numbered n [] = Unit
Numbered n (e ∷ es) = (e.sequence ≡ n) × Numbered (n + 1) es

pub Numbered-append :
    (n : ℕ) (es : List StreamEvent) (e : StreamEvent)
    → Numbered n es
    → e.sequence ≡ n + length es
    → Numbered n (es ++ e ∷ [])
Numbered-append n [] e h q = (omega (arith, q), tt)
Numbered-append n (x ∷ es) e h q = (h.0, Numbered-append (n + 1) es e h.1 (omega (arith, q)))

keep_if-above :
    (n cursor : ℕ) (es : List StreamEvent)
    → cursor < n
    → Numbered n es
    → keep_if (is_after cursor) es ≡ es
unfolding keep_if
keep_if-above n c [] h u = refl
keep_if-above n c (e ∷ es) h u = ground (arith, keep_if-above (n + 1) c es)

keep_if-drop :
    (n c cursor : ℕ) (es : List StreamEvent)
    → cursor ≡ n + c
    → Numbered (n + 1) es
    → keep_if (is_after cursor) es ≡ drop c es
unfolding keep_if
keep_if-drop n zero cursor es q u = keep_if-above (n + 1) cursor es (omega arith) u
keep_if-drop n (suc c) cursor [] q u = refl
keep_if-drop n (suc c) cursor (e ∷ es) q u = ground (arith, keep_if-drop (n + 1) c cursor es)

list_stream_events-after :
    (s : MemoryStore) (id : String) (cursor : ℕ) (r : AgentRun) (es : List StreamEvent)
    → get s.runs id ≡ some r
    → get s.events id ≡ some es
    → list_stream_events id cursor s ≡ (ok (keep_if (is_after cursor) es), s)
unfolding list_stream_events
list_stream_events-after s id cursor r es e h = ground arith

-- A stream that is numbered from 1 is resumed without a gap or a repetition: the events after
-- cursor `c` are all but the first `c` of them, so what a reader has seen and what it gets make up
-- the stream.
pub list_stream_events-resume :
    (s : MemoryStore) (id : String) (c : ℕ) (r : AgentRun) (es : List StreamEvent)
    → get s.runs id ≡ some r
    → get s.events id ≡ some es
    → Numbered 1 es
    → (list_stream_events id c s ≡ (ok (drop c es), s)) × (take c es ++ drop c es ≡ es)
list_stream_events-resume s id c r es e h u = (
  list_stream_events-after s id c r es e h
      ∙ ap (λ l. (ok l, s)) (keep_if-drop 0 c c es (omega arith) u),
  take-append-drop c es,
)

append_stream_event_lem :
    (s : MemoryStore) (id : String) (type : StreamEventType) (payload : Payload) (stamp : Stamp)
    (r : AgentRun) (es : List StreamEvent)
    → get s.runs id ≡ some r
    → get s.events id ≡ some es
    → append_stream_event id type payload stamp s ≡ (
      ok (new_event id type payload stamp (length es + 1)),
      logged s id es (new_event id type payload stamp (length es + 1)),
    )
unfolding append_stream_event
append_stream_event_lem s id type payload stamp r es e h = ground arith

-- An event is accepted for a finished run too, after the one that closed its stream. Once pruning
-- has left fewer events than the highest sequence number, the new event's number is not above it.
pub append_stream_event-late :
    (s : MemoryStore) (id : String) (type : StreamEventType) (payload : Payload) (stamp : Stamp)
    (r : AgentRun) (es : List StreamEvent) (last : StreamEvent)
    → get s.runs id ≡ some r
    → is_terminal r.status ≡ true
    → get s.events id ≡ some (es ++ last ∷ [])
    → length es + 1 < last.sequence
    → (e : StreamEvent) × ((append_stream_event id type payload stamp s).0 ≡ ok e)
      × (get (append_stream_event id type payload stamp s).1.events id
          ≡ some ((es ++ last ∷ []) ++ e ∷ []))
      × (e.sequence ≤ last.sequence)
unfolding new_event
append_stream_event-late s id type payload stamp r es last e t h l =
    let step = append_stream_event_lem s id type payload stamp r (es ++ last ∷ []) e h in
    (
      new_event id type payload stamp (length (es ++ last ∷ []) + 1),
      rw step refl,
      rw step (
          ground (
            arith,
            get-put s.events id id (
                (es ++ last ∷ [])
                ++ new_event id type payload stamp (length (es ++ last ∷ []) + 1) ∷ []),
            eq_refl id,
          )),
      omega (arith, length-append es (last ∷ [])),
    )
