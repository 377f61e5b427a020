-- ===== src/Tests/Duplicates.antt =====
-- A set of seen messages that holds one.
use session_proxy.Prelude.{◌≡◌, refl, true, [], ◌∷◌, arith}
use session_proxy.Prelude.Bytes.{codes}
use session_proxy.Adapter.Seen.{Seen, Limited, mark_message_seen, mark_message_seen_keeps}

abbrev one : Seen
one = (codes "a", 4) ∷ []

one-Limited : Limited one
one-Limited = record { few = omega arith; below = (refl, tt) }

mark_message_seen_keeps_example :
    Limited (mark_message_seen (codes "b") 5 one).1
    × ((mark_message_seen (codes "b") 7 (mark_message_seen (codes "b") 5 one).1).0 ≡ true)
mark_message_seen_keeps_example = mark_message_seen_keeps (codes "b") 5 7 one refl one-Limited
