-- ===== src/Socks/Relay.antt =====
-- relay of internal/socks5/server.go: the two copies between a client and its target, what each
-- side sends in the meantime, and the end of a stream that is passed on where a connection can.
pub mod Passing
use session_proxy.Prelude.{
  ℕ, ◌≡◌, ◌≢◌, ◌≤◌, ◌*◌, Bool, true, false, ◌&&◌, List, [], ◌∷◌, ◌++◌, length,
}
use session_proxy.Prelude.Bytes.{Bytes}

-- A connection by its Go type: *net.TCPConn, a channel of an SSH client, and the wrappers bufferedConn
-- of this package and trackedConn of internal/upstream/pool.go.
pub data ConnType : Type 0 where
  tcp_conn ssh_channel : ConnType
  buffered tracked : ConnType → ConnType

-- Whether the type has a method CloseWrite. The wrappers embed the interface net.Conn, and pass on
-- its methods alone.
unfoldable pub has_close_write : ConnType → Bool
has_close_write tcp_conn = true
has_close_write ssh_channel = true
has_close_write (buffered inner) = false
has_close_write (tracked inner) = false

-- One of the copies: what its source has sent so far, what of it is not passed on, whether the source has
-- ended, what was written to the target, whether the copy is over and with an error, and whether
-- the target was told the end.
pub record Copy : Type 0 where
  pub sent : Bytes
  pub pending : Bytes
  pub ended : Bool
  pub written : Bytes
  pub over : Bool
  pub failed : Bool
  pub end_told : Bool

abbrev pub fresh_copy : Copy
fresh_copy = record {
  sent = [];
  pending = [];
  ended = false;
  written = [];
  over = false;
  failed = false;
  end_told = false;
}

-- The source sends bytes, or ends.
unfoldable pub source_sends : Bytes → Copy → Copy
source_sends bytes c = record c { sent = c.sent ++ bytes; pending = c.pending ++ bytes }

unfoldable pub source_ends : Copy → Copy
source_ends c = record c { ended = true }

-- A read of io.CopyBuffer with the write behind it, of whatever size.
unfoldable pub copy_some : Bytes → Bytes → Copy → Copy
copy_some front rest c = record c { pending = rest; written = c.written ++ front }

-- The end of io.CopyBuffer; and behind it CloseWrite, where the target has it.
unfoldable pub end_copy : Bool → Copy → Copy
end_copy error c = record c { over = true; failed = error }

unfoldable pub tell_end : ConnType → Copy → Copy
unfolding has_close_write
tell_end target c = record c { end_told = has_close_write target }

-- What happens to one direction.
pub data CopyStep (target : ConnType) (c : Copy) : Copy → Type 0 where
  sends : (bytes : Bytes) → c.ended ≡ false → CopyStep target c (source_sends bytes c)
  ends : CopyStep target c (source_ends c)
  copies :
      (front rest : Bytes)
      → c.over ≡ false
      → c.pending ≡ front ++ rest
      → CopyStep target c (copy_some front rest c)
  drained : c.over ≡ false → c.pending ≡ [] → c.ended ≡ true → CopyStep target c (end_copy false c)
  fails : c.over ≡ false → CopyStep target c (end_copy true c)
  tells : c.over ≡ true → CopyStep target c (tell_end target c)

-- Both directions: up from the client, and down to it.
pub record Relay : Type 0 where
  pub up : Copy
  pub down : Copy

pub data Step (client remote : ConnType) (r : Relay) : Relay → Type 0 where
  upward : (c : Copy) → CopyStep remote r.up c → Step client remote r (record r { up = c })
  downward : (c : Copy) → CopyStep client r.down c → Step client remote r (record r { down = c })

pub data Reachable (client remote : ConnType) : Relay → Type 0 where
  begun : Reachable client remote (record { up = fresh_copy; down = fresh_copy })
  stepped :
      {r s : Relay} → Reachable client remote r → Step client remote r s → Reachable client remote s

-- relay is over: what wg.Wait waits for.
unfoldable pub is_over : Relay → Bool
is_over r = r.up.over && r.down.over
