-- ===== src/Audit/Chain/Order.antt =====
-- The rows of a run in their order, after one more row; and the last hash of a chain.
use ogra.Prelude.{
  ◌≤◌, String, ◌≡◌, refl, false, Option, none, some, List, [], ◌∷◌, ◌++◌, str_eq, or_option, arith,
  if◌then◌else◌,
}
use ogra.Audit.Event.{RunEvent}
use ogra.Audit.Chain.{insert_by_sequence, events_of, max_sequence}

pub insert-last :
    (x r : RunEvent) (l : List RunEvent)
    → x.sequence ≤ r.sequence
    → insert_by_sequence x (l ++ r ∷ []) ≡ insert_by_sequence x l ++ r ∷ []
unfolding insert_by_sequence
insert-last x r [] h = ground arith
insert-last x r (y ∷ ys) h = ground (arith, insert-last x r ys h)

pub events_of-append :
    (run_id : String) (log : List RunEvent) (r : RunEvent)
    → max_sequence run_id log ≤ r.sequence
    → events_of run_id (log ++ r ∷ [])
      ≡ (if str_eq r.run_id run_id then events_of run_id log ++ r ∷ [] else events_of run_id log)
unfolding events_of max_sequence insert_by_sequence
events_of-append run_id [] r h = ground arith
events_of-append run_id (x ∷ xs) r h =
    ground (arith, events_of-append run_id xs r, insert-last x r (events_of run_id xs))

pub events_of-append_other :
    (run_id : String) (log : List RunEvent) (r : RunEvent)
    → str_eq r.run_id run_id ≡ false
    → events_of run_id (log ++ r ∷ []) ≡ events_of run_id log
unfolding events_of
events_of-append_other run_id [] r h = ground arith
events_of-append_other run_id (x ∷ xs) r h = ground (arith, events_of-append_other run_id xs r h)

abbrev pub hash_or : String → Option RunEvent → String
hash_or previous none = previous
hash_or previous (some r) = r.event_hash

pub hash_or-cons :
    (previous : String) (x : RunEvent) (o : Option RunEvent)
    → hash_or previous (or_option o (some x)) ≡ hash_or x.event_hash o
hash_or-cons previous x none = refl
hash_or-cons previous x (some r) = refl
