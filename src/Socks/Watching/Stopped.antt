-- ===== src/Socks/Watching/Stopped.antt =====
-- The connection that newDialContext of internal/socks5/server.go leaves to relay.
use session_proxy.Prelude.{
  ℕ, ◌≡◌, ◌≢◌, ◌⊎◌, inl, inr, refl, sym, ap, ◌∙◌, Bool, true, false, ◌++◌, append_assoc, none, some,
  if◌then◌else◌, arith,
}
use session_proxy.Prelude.Bytes.{Bytes}
use session_proxy.Socks.Watching.{
  Watcher, looking, arming, peeking, leaving, gone, stopping, waiting, stopped, Watch,
  new_dial_context, look, arm, peek_data, peek_error, end_watch, watch_cancel, expire, stop_done,
  context_ends, client_sends, Step, looks, arms, peeks, peek_fails, leaves, cancels, expires,
  returns, ends_itself, sends, passes, Steps, here, step,
}

unfoldable pub is_gone : Watcher → Bool
is_gone looking = false
is_gone arming = false
is_gone peeking = false
is_gone leaving = false
is_gone gone = true

is_gone-true : (x : Watcher) → is_gone x ≡ true → x ≡ gone
unfolding is_gone
is_gone-true gone h = refl
is_gone-true looking h = ground (arith, h)
is_gone-true arming h = ground (arith, h)
is_gone-true peeking h = ground (arith, h)
is_gone-true leaving h = ground (arith, h)

-- All that the client has sent is in the buffer of the reader or still to be read.
IsUnread : Watch → Type 0
IsUnread w = w.sent ≡ w.buffered ++ w.wire

Step-IsUnread : (w v : Watch) → Step w v → IsUnread w → IsUnread v
unfolding IsUnread look arm peek_data peek_error end_watch watch_cancel expire stop_done
    context_ends client_sends
Step-IsUnread w _ (peeks front rest p u n) h =
    h ∙ ap (λ x. w.buffered ++ x) u ∙ sym (append_assoc w.buffered front rest)
Step-IsUnread w _ (sends bytes) h = ap (λ x. x ++ bytes) h ∙ append_assoc w.buffered w.wire bytes
Step-IsUnread w _ (looks p) h = ground (arith, h)
Step-IsUnread w _ (arms true p) h = h
Step-IsUnread w _ (arms false p) h = h
Step-IsUnread w _ (peek_fails e p) h = ground (arith, h)
Step-IsUnread w _ (leaves p) h = h
Step-IsUnread w _ (cancels p) h = h
Step-IsUnread w _ (expires p) h = h
Step-IsUnread w _ (returns p g) h = h
Step-IsUnread w _ ends_itself h = h
Step-IsUnread w _ (passes now p) h = h

Steps-IsUnread : (w v : Watch) → Steps w v → IsUnread w → IsUnread v
Steps-IsUnread w _ here h = h
Steps-IsUnread w _ (step {u} {v} s t) h = Step-IsUnread u v t (Steps-IsUnread w u s h)

-- What holds behind the SetReadDeadline of stopWatch, which found the watch at `found` at the time
-- `time`.
record Behind (found : Watcher) (time : ℕ) (v : Watch) : Type 0 where
  passed : (v.stopper ≡ waiting) ⊎ (v.stopper ≡ stopped)
  late : is_gone found ≡ true → (v.watcher ≡ gone) × (v.read_deadline ≡ some time)
  early : is_gone found ≡ false → v.watcher ≡ gone → v.read_deadline ≡ none
  over : v.stopper ≡ stopped → v.watcher ≡ gone

expire-Behind : (w : Watch) → Behind w.watcher w.clock (expire w)
unfolding expire is_gone
expire-Behind w = record {
  passed = inl refl;
  late = λ g. (is_gone-true w.watcher g, refl);
  early = λ g e. ground (arith, g, ap is_gone e);
  over = λ e. ground (arith, e);
}

-- A watch that goes on changes nothing of it.
going-Behind :
    (found : Watcher) (time : ℕ) (u v : Watch)
    → u.watcher ≢ gone
    → v.watcher ≢ gone
    → v.stopper ≡ u.stopper
    → Behind found time u
    → Behind found time v
going-Behind found time u v n m s b = record {
  passed = ground (arith, b.passed, s);
  late = λ g. ground (arith, b.late g, n);
  early = λ g e. ground (arith, e, m);
  over = λ e. ground (arith, b.over, n, e, s);
}

Step-Behind :
    (found : Watcher) (time : ℕ) (u v : Watch)
    → Step u v
    → Behind found time u
    → Behind found time v
unfolding look arm peek_data peek_error end_watch watch_cancel expire stop_done context_ends
    client_sends
Step-Behind found time u _ (looks p) b =
    going-Behind found time u _ (ground (arith, p)) (ground arith) (ground arith) b
Step-Behind found time u _ (arms fails p) b =
    going-Behind found time u _ (ground (arith, p)) (ground arith) (ground arith) b
Step-Behind found time u _ (peeks front rest p x n) b =
    going-Behind found time u _ (ground (arith, p)) (ground arith) refl b
Step-Behind found time u _ (peek_fails x p) b =
    going-Behind found time u _ (ground (arith, p)) (ground arith) (ground arith) b
Step-Behind found time u _ (leaves p) b = record {
  passed = b.passed;
  late = λ g. ground (arith, b.late g, p);
  early = λ g e. refl;
  over = λ e. refl;
}
Step-Behind found time u _ (cancels p) b = ground (arith, b.passed, p)
Step-Behind found time u _ (expires p) b = ground (arith, b.passed, p)
Step-Behind found time u _ (returns p g) b = record {
  passed = inr refl;
  late = b.late;
  early = b.early;
  over = λ e. g;
}
Step-Behind found time u _ ends_itself b = record {
  passed = b.passed;
  late = b.late;
  early = b.early;
  over = b.over;
}
Step-Behind found time u _ (sends bytes) b = record {
  passed = b.passed;
  late = b.late;
  early = b.early;
  over = b.over;
}
Step-Behind found time u _ (passes now p) b = record {
  passed = b.passed;
  late = b.late;
  early = b.early;
  over = b.over;
}

Steps-Behind :
    (found : Watcher) (time : ℕ) (w v : Watch)
    → Steps w v
    → Behind found time w
    → Behind found time v
Steps-Behind found time w _ here b = b
Steps-Behind found time w _ (step {u} {v} s t) b =
    Step-Behind found time u v t (Steps-Behind found time w u s b)

Behind-deadline :
    (found : Watcher) (time : ℕ) (v : Watch)
    → Behind found time v
    → v.stopper ≡ stopped
    → v.read_deadline ≡ (if is_gone found then some time else none)
unfolding is_gone
Behind-deadline gone time v b e = (b.late refl).1
Behind-deadline looking time v b e = b.early refl (b.over e)
Behind-deadline arming time v b e = b.early refl (b.over e)
Behind-deadline peeking time v b e = b.early refl (b.over e)
Behind-deadline leaving time v b e = b.early refl (b.over e)

-- When stopWatch returns, all that the client has sent since its request is left for relay, buffered
-- or to be read. And the read deadline is cleared where the watch still ran at the SetReadDeadline of
-- stopWatch; where the watch had ended before, the deadline stays at the time of that call.
pub stop_watch-deadline :
    (now : ℕ) (early : Bytes) (w v : Watch)
    → Steps (new_dial_context now early) w
    → w.stopper ≡ stopping
    → Steps (expire w) v
    → v.stopper ≡ stopped
    → (v.read_deadline ≡ (if is_gone w.watcher then some w.clock else none))
      × (v.sent ≡ v.buffered ++ v.wire)
unfolding IsUnread expire
stop_watch-deadline now early w v s p t e = (
  Behind-deadline w.watcher w.clock v
      (Steps-Behind w.watcher w.clock (expire w) v t (expire-Behind w)) e,
  Steps-IsUnread (expire w) v t (Steps-IsUnread (new_dial_context now early) w s refl),
)
