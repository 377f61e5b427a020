-- ===== src/Socks/Relay/Passing.antt =====
-- What relay of internal/socks5/server.go passes on.
use session_proxy.Prelude.{
  ◌≡◌, ◌⊎◌, inl, inr, refl, sym, ap, ◌∙◌, true, false, [], ◌++◌, append_assoc, arith,
}
use session_proxy.Socks.Relay.{
  ConnType, tcp_conn, buffered, tracked, has_close_write, Copy, fresh_copy, source_sends,
  source_ends, copy_some, end_copy, CopyStep, sends, ends, copies, drained, fails, tells, tell_end,
  Relay, upward, downward, Reachable, begun, stepped, is_over,
}

-- A target has received a front of what the source sent, in its order. A copy that is over without an
-- error has passed on all of it, to the end; and the target was told the end only where the copy is
-- over and its type has CloseWrite.
pub record Passed (target : ConnType) (c : Copy) : Type 0 where
  pub in_order : c.sent ≡ c.written ++ c.pending
  pub to_the_end : (c.over ≡ false) ⊎ (c.failed ≡ true) ⊎ ((c.pending ≡ []) × (c.ended ≡ true))
  pub told : c.end_told ≡ true → (c.over ≡ true) × (has_close_write target ≡ true)

fresh-Passed : (target : ConnType) → Passed target fresh_copy
fresh-Passed target = record {
  in_order = refl;
  to_the_end = inl refl;
  told = λ h. ground (arith, h);
}

CopyStep-Passed :
    (target : ConnType) (c d : Copy) → CopyStep target c d → Passed target c → Passed target d
unfolding source_sends source_ends copy_some end_copy tell_end
CopyStep-Passed target c _ (sends bytes e) p = record {
  in_order = ap (λ s. s ++ bytes) p.in_order ∙ append_assoc c.written c.pending bytes;
  to_the_end = ground (arith, p.to_the_end, e);
  told = p.told;
}
CopyStep-Passed target c _ ends p = record {
  in_order = p.in_order;
  to_the_end = ground (arith, p.to_the_end);
  told = p.told;
}
CopyStep-Passed target c _ (copies front rest o u) p = record {
  in_order = p.in_order ∙ ap (λ x. c.written ++ x) u ∙ sym (append_assoc c.written front rest);
  to_the_end = inl o;
  told = p.told;
}
CopyStep-Passed target c _ (drained o u e) p = record {
  in_order = p.in_order;
  to_the_end = inr (inr (u, e));
  told = λ h. (refl, (p.told h).1);
}
CopyStep-Passed target c _ (fails o) p = record {
  in_order = p.in_order;
  to_the_end = inr (inl refl);
  told = λ h. (refl, (p.told h).1);
}
CopyStep-Passed target c _ (tells o) p = record {
  in_order = p.in_order;
  to_the_end = p.to_the_end;
  told = λ h. (o, h);
}

-- However the two copies interleave with what both sides send: each side has received, in order, a
-- front of what the other sent; a copy that is over without an error has passed on all of it, to its
-- end; and a side is told that the other has ended only where the copy to it is over and its connection
-- has a CloseWrite.
Reachable-Passed :
    (client remote : ConnType) (r : Relay)
    → Reachable client remote r
    → Passed remote r.up × Passed client r.down
Reachable-Passed client remote _ begun = (fresh-Passed remote, fresh-Passed client)
Reachable-Passed client remote _ (stepped {r} h (upward c s)) =
    let (up, down) = Reachable-Passed client remote r h in
    (CopyStep-Passed remote r.up c s up, down)
Reachable-Passed client remote _ (stepped {r} h (downward c s)) =
    let (up, down) = Reachable-Passed client remote r h in
    (up, CopyStep-Passed client r.down c s down)

-- In a relay through an upstream the end of a stream is passed on in neither direction: handleConn
-- gives a bufferedConn and dial a trackedConn, which both have no CloseWrite. And relay waits for
-- both copies: it is over only where one has failed or both sides have ended of themselves.
tunnel-unclosed :
    (channel : ConnType) (r : Relay)
    → Reachable (buffered tcp_conn) (tracked channel) r
    → (r.up.end_told ≡ false)
      × (r.down.end_told ≡ false)
      × ((is_over r ≡ false)
          ⊎ (r.up.failed ≡ true)
          ⊎ (r.down.failed ≡ true)
          ⊎ ((r.up.ended ≡ true) × (r.down.ended ≡ true)))
unfolding has_close_write is_over
tunnel-unclosed channel r h =
    let (up, down) = Reachable-Passed (buffered tcp_conn) (tracked channel) r h in
    (
      ground (arith, up.told),
      ground (arith, down.told),
      ground (arith, up.to_the_end, down.to_the_end),
    )
