-- ===== src/Adapter/Write/Returns.antt =====
-- Write of internal/protocol/adapter.go comes to its end.
use session_proxy.Prelude.{
  Option, ℕ, suc, ◌+◌, ◌-◌, ◌*◌, ◌^◌, ◌<◌, ◌≤◌, ◌≡◌, ◌⊎◌, inl, inr, refl, ap, ◌∙◌, Bool, false,
  List, [], ◌∷◌, ◌++◌, none, arith, Bool-cases, All, length, take, drop, min, length-take,
  length-drop, length-append,
}
use session_proxy.Prelude.Bytes.{Byte, Bytes}
use session_proxy.Prelude.Int64.{Int64, slt, add64, inc}
use session_proxy.Message.{External, IsEncodable, new_input_message}
use session_proxy.Message.Encode.{marshal_binary, encode_header, length-encode_header, sealed}
use session_proxy.Adapter.Outgoing.{Outgoing, added, wait, add_outgoing, track}
use session_proxy.Adapter.Write.{
  passed, Pass, Room, room, Round, Sender, chunk_sent, send_with_room, wrote, frame_of, write_chunk,
  write_loop, write, await_room, wait_for_publication, write_raw, next_seq, resolve_chunk_size,
}
use session_proxy.Adapter.Settings.{IsParser, chunk_size_of, max_unacked_of, settings_range}
use session_proxy.Adapter.Write.Exact.{IsRound}

-- An open window whose limit has room for `most` bytes.
pub record IsOpen (most : ℕ) (w : Outgoing) : Type 0 where
  pub not_closed : w.closed ≡ false
  pub bytes_fit : w.bytes ≤ 2 ^ 30
  pub room_for : most ≤ w.max_bytes
  pub limit : w.max_bytes ≤ 2 ^ 30

-- In front of the deadline, the others leave the window open and at some time empty.
pub data Empties (most : ℕ) : List Pass → Type 0 where
  empties :
      {p q : Pass} {ps : List Pass}
      → p.late ≡ false
      → ((w : Outgoing) → IsOpen most w → IsOpen most (p.meanwhile w) × ((p.meanwhile w).bytes ≡ 0))
      → Empties most (p ∷ q ∷ ps)
  later :
      {p : Pass} {ps : List Pass}
      → p.late ≡ false
      → ((w : Outgoing) → IsOpen most w → IsOpen most (p.meanwhile w))
      → Empties most ps
      → Empties most (p ∷ ps)

module _ (most : ℕ) where
  abbrev HasRoom : Room → Type 0
  HasRoom o = (v : Outgoing) × IsOpen most v × (o ≡ room v)

  add_open :
      (now : ℕ) (late : Bool) (seq : Int64) (id frame : Bytes) (w : Outgoing)
      → late ≡ false
      → length frame ≤ most
      → IsOpen most w
      → ((v : Outgoing) × IsOpen most v × (add_outgoing now late seq id frame w ≡ added v))
        ⊎ (add_outgoing now late seq id frame w ≡ wait)
  unfolding add_outgoing track
  add_open now late seq id frame w l f o =
      elim (Bool-cases (slt w.max_bytes (add64 w.bytes (length frame)))) [
        | inl e ↦ inr (ground (arith, e, l, o.not_closed))
        | inr e ↦ inl (
          track now seq id frame w,
          record {
            not_closed = o.not_closed;
            bytes_fit = ground (arith, e, o.bytes_fit, f, o.limit, o.room_for);
            room_for = o.room_for;
            limit = o.limit;
          },
          ground (arith, e, o.not_closed),
        )
      ]

  empty_room :
      (p : Pass) (ps : List Pass) (seq : Int64) (id frame : Bytes) (w : Outgoing)
      → length frame ≤ most
      → IsOpen most w
      → w.bytes ≡ 0
      → HasRoom (await_room (p ∷ ps) seq id frame w)
  unfolding await_room add_outgoing track
  empty_room p ps seq id frame w f o z = (
    track p.now seq id frame w,
    record {
      not_closed = o.not_closed;
      bytes_fit = ground (arith, z, f, o.limit, o.room_for);
      room_for = o.room_for;
      limit = o.limit;
    },
    ground (arith, z, f, o.room_for, o.limit, o.not_closed),
  )

  await_room_cons :
      (p : Pass) (ps : List Pass) (seq : Int64) (id frame : Bytes) (w : Outgoing)
      → p.late ≡ false
      → length frame ≤ most
      → IsOpen most w
      → HasRoom (await_room ps seq id frame (p.meanwhile w))
      → HasRoom (await_room (p ∷ ps) seq id frame w)
  unfolding await_room
  await_room_cons p ps seq id frame w l f o (v, k, h) =
      elim (add_open p.now p.late seq id frame w l f o) [
        | inl (u, j, e) ↦ (u, j, rw (e, await_room) refl)
        | inr e ↦ (v, k, rw (e, await_room) h)
      ]

  await_room-Empties :
      (ps : List Pass) (seq : Int64) (id frame : Bytes) (w : Outgoing)
      → length frame ≤ most
      → IsOpen most w
      → Empties most ps
      → HasRoom (await_room ps seq id frame w)
  await_room-Empties [] seq id frame w f o x = elim x [ ]
  await_room-Empties (p ∷ ps) seq id frame w f o (later l k x) =
      await_room_cons p ps seq id frame w l f o
        (await_room-Empties ps seq id frame (p.meanwhile w) f (k w o) x)
  await_room-Empties (p ∷ q ∷ ps) seq id frame w f o (empties l k) =
      let (j, z) = k w o in
      await_room_cons p (q ∷ ps) seq id frame w l f o
        (empty_room q ps seq id frame (p.meanwhile w) f j z)

  -- A round that nothing stops: publication goes on, the window is emptied in time, and the frame
  -- is written at last.
  pub record IsReady (r : Round) : Type 0 where
    pub published : wait_for_publication r.gates ≡ passed
    pub emptied : Empties most r.passes
    pub connected : write_raw r.attempts ≡ passed
    pub kept : (w : Outgoing) → IsOpen most w → IsOpen most (r.meanwhile w)

rounds_left : (n c k l : ℕ) → k ≡ l - c → l ≤ suc n * c → k ≤ n * c
rounds_left n c k l e h = grind (arith, e, h)

module _ (x : External) (digest : (b : Bytes) → length (x.sha256 b) ≡ 32) (chunk : ℕ) where
  sealed_input-IsEncodable :
      (r : Round) (seq : Int64) (payload : Bytes)
      → IsRound r
      → seq < 2 ^ 64
      → IsEncodable (sealed x (new_input_message r.id r.created payload seq))
  unfolding new_input_message
  sealed_input-IsEncodable r seq payload i s = omega (arith, i.id_length, i.created_fits)

  length-frame_of :
      (r : Round) (seq : Int64) (payload : Bytes)
      → IsRound r
      → seq < 2 ^ 64
      → length (frame_of x r seq payload) ≡ 120 + length payload
  unfolding marshal_binary new_input_message
  length-frame_of r seq payload i s = omega (
    arith,
    length-append (encode_header (sealed x (new_input_message r.id r.created payload seq))) payload,
    length-encode_header (sealed x (new_input_message r.id r.created payload seq))
        (sealed_input-IsEncodable r seq payload i s) (digest payload),
  )

  write_chunk_ready :
      (r : Round) (b : Bytes) (s : Sender)
      → IsRound r
      → IsReady (120 + chunk) r
      → length b ≤ chunk
      → s.seq_num < 2 ^ 64
      → IsOpen (120 + chunk) s.window
      → (t : Sender) × IsOpen (120 + chunk) t.window
        × (t.seq_num < 2 ^ 64)
        × (write_chunk x r b s ≡ chunk_sent t)
  unfolding write_chunk send_with_room next_seq
  write_chunk_ready r b s i k l f o =
      let frame = frame_of x r s.seq_num b in
      let (v, j, e) =
        await_room-Empties (120 + chunk) r.passes s.seq_num r.id frame s.window
          (omega (arith, l, length-frame_of r s.seq_num b i f)) o k.emptied in
      (
        record { seq_num = inc s.seq_num; window = r.meanwhile v; wire = s.wire ++ (frame ∷ []) },
        k.kept v j,
        omega arith,
        ground (arith, k.published, e, k.connected),
      )

  write_loop_step :
      (r : Round) (rs : List Round) (c : Byte) (b : Bytes) (total : ℕ) (s u : Sender)
      → write_chunk x r (take chunk (c ∷ b)) s ≡ chunk_sent u
      → write_loop x (r ∷ rs) chunk (c ∷ b) total s
        ≡ write_loop x rs chunk (drop chunk (c ∷ b)) (total + min chunk (length (c ∷ b))) u
  unfolding write_loop
  write_loop_step r rs c b total s u e = ground (arith, e)

  write_loop_ready :
      (rs : List Round) (b : Bytes) (total : ℕ) (s : Sender)
      → All IsRound rs
      → All (IsReady (120 + chunk)) rs
      → 0 < chunk
      → length b ≤ length rs * chunk
      → s.seq_num < 2 ^ 64
      → IsOpen (120 + chunk) s.window
      → (t : Sender) × (write_loop x rs chunk b total s ≡ wrote (total + length b) none t)
  unfolding write_loop
  write_loop_ready rs [] total s i k p l f o = (s, ground arith)
  write_loop_ready [] (c ∷ b) total s i k p l f o = absurd (omega (arith, l))
  write_loop_ready (r ∷ rs) (c ∷ b) total s i k p l f o =
      let (u, j, g, e) =
        write_chunk_ready r (take chunk (c ∷ b)) s i.0 k.0
          (omega (arith, length-take chunk (c ∷ b))) f o in
      let (t, h) =
        write_loop_ready rs (drop chunk (c ∷ b)) (total + min chunk (length (c ∷ b))) u i.1 k.1 p
          (rounds_left (length rs) chunk _ _ (length-drop chunk (c ∷ b)) l) g j in
      (
        t,
        write_loop_step r rs c b total s u e
            ∙ h
            ∙ ap (λ n. wrote n none t) (omega (arith, length-drop chunk (c ∷ b))),
      )

positive_chunk : (c : Int64) → 0 < resolve_chunk_size c
unfolding resolve_chunk_size
positive_chunk c = ground arith

-- Write returns with everything written on an adapter that NewAdapter made under any environment,
-- where it has a round for each chunk and nothing stops one: publication goes on, the window is not
-- closed and is emptied before the deadline, and the frame is written at last. No setting makes a
-- window too small for a frame.
pub write-returns :
    (x : External) (parse : Bytes → Option Int64) (v u : Bytes) (rs : List Round) (b : Bytes)
    (s : Sender)
    → IsParser parse
    → ((c : Bytes) → length (x.sha256 c) ≡ 32)
    → All IsRound rs
    → All (IsReady (120 + resolve_chunk_size (chunk_size_of parse v))) rs
    → length b ≤ length rs * resolve_chunk_size (chunk_size_of parse v)
    → s.seq_num < 2 ^ 64
    → s.window.closed ≡ false
    → s.window.max_bytes ≡ max_unacked_of parse u
    → s.window.bytes ≤ s.window.max_bytes
    → (t : Sender) × (write x rs (chunk_size_of parse v) b s ≡ wrote (length b) none t)
unfolding write
write-returns x parse v u rs b s p digest i k l f c m w =
    let (low, high, room_low, room_high) = settings_range parse v u p in
    let (t, h) =
      write_loop_ready x digest (resolve_chunk_size (chunk_size_of parse v)) rs b 0 s i k
        (positive_chunk (chunk_size_of parse v)) l f
        (record {
          not_closed = c;
          bytes_fit = omega (arith, m, w, room_high);
          room_for = omega (arith, m, high, room_low);
          limit = omega (arith, m, room_high);
        }) in
    (t, h ∙ ap (λ n. wrote n none t) (omega arith))
