-- ===== src/Npc/Notify.antt =====
-- npc/server.go: `closeNotify`, `noteClientGone` and the `liveSwitchReader` of a connection. The methods
-- hold `c.mu`, so each is one step; the goroutine that `closeNotify` starts copies from the reader
-- that it was given until that ends, which is any time later.
pub mod Reached
use gomcpack.Prelude.{◌≡◌, Bool, true, false, not, List, [], ◌∷◌, if◌then◌else◌}
use gomcpack.Go.{Go, done, panic, ◌>>=◌, runtime_error}

-- `c.closeNotifyc`: nil, open, or closed.
pub data Channel : Type 0 where
  no_channel open_channel closed_channel : Channel

-- What `c.sr` reads from: the connection, or the pipe that the goroutine writes to.
pub data Source : Type 0 where
  connection pipe : Source

-- `copying` are the goroutines that run, by their sources.
pub record Notify : Type 0 where
  pub close_notifyc : Channel
  pub client_gone : Bool
  pub reader : Source
  pub copying : List Source

-- `newConn`
abbrev pub new_notify : Notify
new_notify = record {
  close_notifyc = no_channel;
  client_gone = false;
  reader = connection;
  copying = [];
}

-- `c.sr.Swap(i)`: the old reader, and the new state.
unfoldable pub swap : Source → Notify → Source × Notify
swap i s = (s.reader, record s { reader = i })

-- `c.closeNotify()`
unfoldable pub close_notify : Notify → Notify
unfolding swap
close_notify s = made s.close_notifyc
  where
    made : Channel → Notify
    made no_channel =
        let (read_source, s') = swap pipe s in
        record s' { close_notifyc = open_channel; copying = read_source ∷ s'.copying }
    made _ = s

-- `close(c)`: a run-time panic on a nil channel, and on a closed one.
unfoldable pub close_channel : Channel → Go Channel
close_channel open_channel = done closed_channel
close_channel _ = panic runtime_error

abbrev pub is_nil : Channel → Bool
is_nil no_channel = true
is_nil _ = false

-- `c.noteClientGone()`
unfoldable pub note_client_gone : Notify → Go Notify
unfolding close_channel
note_client_gone s =
    if is_nil s.close_notifyc
    then done (record s { client_gone = true })
    else if s.client_gone
    then done (record s { client_gone = true })
    else (close_channel s.close_notifyc >>= λ c.
        done (record s { close_notifyc = c; client_gone = true }))

-- The end of one of the goroutines.
unfoldable pub copy_ends : Notify → Go Notify
unfolding note_client_gone
copy_ends s = ended s.copying
  where
    ended : List Source → Go Notify
    ended [] = done s
    ended (x ∷ rest) = note_client_gone (record s { copying = rest })

-- A step: a handler calls `CloseNotify`, or a goroutine ends without a panic.
pub data Step : Notify → Notify → Type 0 where
  notified : (s : Notify) → Step s (close_notify s)
  ended : {s s' : Notify} → copy_ends s ≡ done s' → Step s s'

pub data Reach (s : Notify) : Notify → Type 0 where
  here : Reach s s
  next : {t u : Notify} → Reach s t → Step t u → Reach s u
