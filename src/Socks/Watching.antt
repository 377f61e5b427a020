-- ===== src/Socks/Watching.antt =====
-- newDialContext and watchClientDisconnect of internal/socks5/server.go: the watch for a client that
-- goes away during the dial, and stopWatch, on the connection that relay then reads. The watch and
-- handleConnect are two threads.
pub mod Stopped
use session_proxy.Prelude.{
  ℕ, ◌+◌, ◌*◌, ◌≡◌, ◌≢◌, ◌≤◌, Bool, true, false, ◌||◌, List, [], ◌∷◌, ◌++◌, Option, none, some,
  if◌then◌else◌,
}
use session_proxy.Prelude.Bytes.{Bytes, codes, eq_bytes}

abbrev pub client_close_probe_interval : ℕ
client_close_probe_interval = 200 * 1000000

pub data ConnErrno : Type 0 where
  econnreset epipe enotconn other_conn_errno : ConnErrno

-- What the watch sees of an error of Peek.
pub record PeekError : Type 0 where
  pub net_timeout : Bool
  pub eof : Bool
  pub net_closed : Bool
  pub conn_errno : Option ConnErrno
  pub text : Bytes

-- isConnClosedError of an error that is not nil.
unfoldable pub is_conn_closed_error : PeekError → Bool
is_conn_closed_error e =
    let by_text = eq_bytes e.text (codes "use of closed network connection") in
    elim e.conn_errno [
      | none ↦ by_text
      | some errno ↦ elim errno [
        | econnreset ↦ true
        | epipe ↦ true
        | enotconn ↦ true
        | other_conn_errno ↦ by_text
      ]
    ]

-- Where watchClientDisconnect stands: at its select, in front of SetReadDeadline, in Peek, at its
-- deferred call, and behind it.
pub data Watcher : Type 0 where
  looking arming peeking leaving gone : Watcher

-- Where handleConnect stands: in the dial, in stopWatch behind watchCancel, behind SetReadDeadline,
-- and behind stopWatch.
pub data Stopper : Type 0 where
  dialling stopping waiting stopped : Stopper

-- What the client has sent, what of it the reader has buffered and what is still to be read, the read
-- deadline, whether watchCtx has ended, and whether the dial was cancelled by the watch.
pub record Watch : Type 0 where
  pub clock : ℕ
  pub sent : Bytes
  pub buffered : Bytes
  pub wire : Bytes
  pub read_deadline : Option ℕ
  pub watch_ended : Bool
  pub dial_cancelled : Bool
  pub watcher : Watcher
  pub stopper : Stopper

-- newDialContext; the client may have sent something behind its request.
abbrev pub new_dial_context : ℕ → Bytes → Watch
new_dial_context now early = record {
  clock = now;
  sent = early;
  buffered = [];
  wire = early;
  read_deadline = none;
  watch_ended = false;
  dial_cancelled = false;
  watcher = looking;
  stopper = dialling;
}

-- The select of the loop.
unfoldable pub look : Watch → Watch
look w = if w.watch_ended then record w { watcher = leaving } else record w { watcher = arming }

-- SetReadDeadline of the loop, which may fail.
unfoldable pub arm : Bool → Watch → Watch
arm fails w = if fails then record w { watcher = leaving } else record w {
  read_deadline = some (w.clock + client_close_probe_interval);
  watcher = peeking;
}

-- Peek without an error: the reader buffers a front of what is there.
unfoldable pub peek_data : Bytes → Bytes → Watch → Watch
peek_data front rest w = record w { buffered = w.buffered ++ front; wire = rest; watcher = leaving }

-- Peek with an error.
unfoldable pub peek_error : PeekError → Watch → Watch
unfolding is_conn_closed_error
peek_error e w =
    if e.net_timeout
    then record w { watcher = looking }
    else if e.eof || e.net_closed || is_conn_closed_error e
    then record w { watch_ended = true; dial_cancelled = true; watcher = leaving }
    else record w { watcher = leaving }

-- The deferred call, and the end of the goroutine, which closes watchDone.
unfoldable pub end_watch : Watch → Watch
end_watch w = record w { read_deadline = none; watcher = gone }

-- stopWatch: watchCancel, SetReadDeadline, and the receive from watchDone.
unfoldable pub watch_cancel : Watch → Watch
watch_cancel w = record w { watch_ended = true; stopper = stopping }

unfoldable pub expire : Watch → Watch
expire w = record w { read_deadline = some w.clock; stopper = waiting }

unfoldable pub stop_done : Watch → Watch
stop_done w = record w { stopper = stopped }

-- The context of the dial ends of itself: by its timeout or by the server's context.
unfoldable pub context_ends : Watch → Watch
context_ends w = record w { watch_ended = true }

unfoldable pub client_sends : Bytes → Watch → Watch
client_sends bytes w = record w { sent = w.sent ++ bytes; wire = w.wire ++ bytes }

pub data Step (w : Watch) : Watch → Type 0 where
  looks : w.watcher ≡ looking → Step w (look w)
  arms : (fails : Bool) → w.watcher ≡ arming → Step w (arm fails w)
  peeks :
      (front rest : Bytes)
      → w.watcher ≡ peeking
      → w.wire ≡ front ++ rest
      → front ≢ []
      → Step w (peek_data front rest w)
  peek_fails : (e : PeekError) → w.watcher ≡ peeking → Step w (peek_error e w)
  leaves : w.watcher ≡ leaving → Step w (end_watch w)
  cancels : w.stopper ≡ dialling → Step w (watch_cancel w)
  expires : w.stopper ≡ stopping → Step w (expire w)
  returns : w.stopper ≡ waiting → w.watcher ≡ gone → Step w (stop_done w)
  ends_itself : Step w (context_ends w)
  sends : (bytes : Bytes) → Step w (client_sends bytes w)
  passes : (now : ℕ) → w.clock ≤ now → Step w (record w { clock = now })

pub data Steps (w : Watch) : Watch → Type 0 where
  here : Steps w w
  step : {u v : Watch} → Steps w u → Step u v → Steps w v
