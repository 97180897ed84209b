-- ===== src/Server/Store/Queue.antt =====
-- The event queue, the client counter and the lists of callbacks.
use rs_snap.Prelude.{
  ℕ, zero, suc, ◌-◌, ◌≤◌, ◌<◌, ◌≡◌, refl, arith, true, List, [], ◌∷◌, ◌++◌, length, length-append,
  length-drop, drop, leb, if◌then◌else◌, Bool-cases, inl, inr, ◌∙◌, bit_and, ◌==◌,
}
use rs_snap.Server.Store.{EventInfo, Store, pop_front, pick_event, enqueue_event}

-- The last 1024 of a history of events.
abbrev pub newest : List EventInfo → List EventInfo
newest es = drop (length es - 1024) es

drop-suc : (k : ℕ) (es : List EventInfo) → drop (suc k) es ≡ (pop_front (drop k es)).1
drop-suc zero [] = refl
drop-suc zero (e ∷ es) = refl
drop-suc (suc k) [] = refl
drop-suc (suc k) (e ∷ es) = drop-suc k es

drop-append_le :
    (k : ℕ) (es more : List EventInfo) → k ≤ length es → drop k (es ++ more) ≡ drop k es ++ more
drop-append_le zero es more h = refl
drop-append_le (suc k) [] more h = absurd (omega arith)
drop-append_le (suc k) (e ∷ es) more h = drop-append_le k es more (omega arith)

pop_front-append :
    (es more : List EventInfo)
    → 0 < length es
    → (pop_front (es ++ more)).1 ≡ (pop_front es).1 ++ more
pop_front-append [] more h = elim h [ ]
pop_front-append (e ∷ es) more h = refl

-- One event more drops the oldest if 1024 are there.
newest_push :
    (es : List EventInfo) (e : EventInfo)
    → newest (es ++ (e ∷ []))
      ≡ (if leb 1024 (length (newest es)) then (pop_front (newest es)).1 else newest es) ++ (e ∷ [])
newest_push es e = elim (Bool-cases (leb 1024 (length es))) [
  | inl full ↦
      let k : ℕ = length es - 1024 in
      let n : length (es ++ (e ∷ [])) - 1024 ≡ suc k = ground (arith, length-append es (e ∷ [])) in
      let kept : leb 1024 (length (newest es)) ≡ true = ground (arith, length-drop k es) in
      rw (n, kept)
        (drop-suc k (es ++ (e ∷ []))
          ∙ rw (drop-append_le k es (e ∷ []) (omega arith))
              (pop_front-append (drop k es) (e ∷ []) (ground (arith, length-drop k es))))
  | inr room ↦
      let none_out : length es - 1024 ≡ 0 = ground arith in
      let none_out' : length (es ++ (e ∷ [])) - 1024 ≡ 0 =
        ground (arith, length-append es (e ∷ [])) in
      rw (none_out', none_out, room)
]

-- A queue that holds the newest 1024 of a history of events, in their order, does so after one more
-- event, which counts only if the mask has its bit.
enqueue_event-newest :
    (info : EventInfo) (bit : ℕ) (s : Store) (history : List EventInfo)
    → s.events ≡ newest history
    → (enqueue_event info bit s).events
      ≡ newest (if bit_and s.event_mask bit == 0 then history else history ++ (info ∷ []))
unfolding enqueue_event
enqueue_event-newest info bit s history h = ground (arith, newest_push history info)

length-pop_front : (es : List EventInfo) → length (pop_front es).1 ≡ length es - 1
length-pop_front [] = refl
length-pop_front (e ∷ es) = omega arith

abbrev pub IsBounded : Store → Type 0
IsBounded s = length s.events ≤ 1024

-- A queue of at most 1024 events is as short after one more event.
pub enqueue_event-IsBounded :
    (info : EventInfo) (bit : ℕ) (s : Store) → IsBounded s → IsBounded (enqueue_event info bit s)
unfolding enqueue_event
enqueue_event-IsBounded info bit s h = ground (
  arith,
  length-append s.events (info ∷ []),
  length-append (pop_front s.events).1 (info ∷ []),
  length-pop_front s.events,
)

pub pick_event-IsBounded : (s : Store) → IsBounded s → IsBounded (pick_event s).1
unfolding pick_event
pick_event-IsBounded s h = ground (arith, length-pop_front s.events)
