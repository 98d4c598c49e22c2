-- ===== src/Npc/Notify/Reached.antt =====
-- What becomes of the channel of `CloseNotify`.
use gomcpack.Prelude.{◌≡◌, refl, sym, ◌∙◌, Bool, true, false, List, [], ◌∷◌, subst}
use gomcpack.Go.{done}
use gomcpack.Npc.Notify.{
  Channel, no_channel, open_channel, closed_channel, Source, connection, pipe, Notify, new_notify,
  close_notify, copy_ends, Step, notified, ended, Reach, here, next,
}

-- Without a channel nothing is copied; an open channel has its goroutine, which reads from the
-- connection while the server reads from the pipe; a closed one has none any more.
abbrev pub Fits : Channel → Bool → Source → List Source → Type 0
Fits no_channel gone reader copying = (gone ≡ false) × (reader ≡ connection) × (copying ≡ [])
Fits open_channel gone reader copying =
    (gone ≡ false) × (reader ≡ pipe) × (copying ≡ connection ∷ [])
Fits closed_channel gone reader copying = (gone ≡ true) × (reader ≡ pipe) × (copying ≡ [])

abbrev pub IsSound : Notify → Type 0
IsSound s = Fits s.close_notifyc s.client_gone s.reader s.copying

-- A state by its parts.
abbrev parts : Channel → Bool → Source → List Source → Notify
parts c gone reader copying = record {
  close_notifyc = c;
  client_gone = gone;
  reader = reader;
  copying = copying;
}

close_notify-parts :
    (c : Channel) (gone : Bool) (reader : Source) (copying : List Source)
    → Fits c gone reader copying
    → IsSound (close_notify (parts c gone reader copying))
unfolding close_notify
close_notify-parts no_channel gone reader copying (g, r, l) = (g, refl, rw (r, l) refl)
close_notify-parts open_channel gone reader copying h = h
close_notify-parts closed_channel gone reader copying h = h

-- The end of a goroutine closes the channel.
pub Closes : Notify → Source → Type 0
Closes s x =
    (s' : Notify) × (copy_ends s ≡ done s')
    × (s'.close_notifyc ≡ closed_channel)
    × (x ≡ connection)
    × IsSound s'

copy_ends-parts :
    (c : Channel) (gone : Bool) (reader : Source) (x : Source) (rest : List Source)
    → Fits c gone reader (x ∷ rest)
    → Closes (parts c gone reader (x ∷ rest)) x
unfolding copy_ends Closes
copy_ends-parts no_channel gone reader x rest (g, r, l) = absurd (cc)
copy_ends-parts open_channel gone reader x rest (g, r, l) =
    (parts closed_channel true reader rest, rw g refl, refl, cc, (refl, r, cc))
copy_ends-parts closed_channel gone reader x rest (g, r, l) = absurd (cc)

done-injective : (s t : Notify) → done s ≡ done t → s ≡ t
done-injective s t e = cc

after_end :
    (c : Channel) (gone : Bool) (reader : Source) (copying : List Source) (s' : Notify)
    → Fits c gone reader copying
    → copy_ends (parts c gone reader copying) ≡ done s'
    → IsSound s'
unfolding copy_ends Closes
after_end c gone reader [] s' h run =
    subst (λ (s : Notify). IsSound s) (done-injective (parts c gone reader []) s' run) h
after_end c gone reader (x ∷ rest) s' h run =
    let (t, ran, shut, conn, sound) = copy_ends-parts c gone reader x rest h in
    subst (λ (s : Notify). IsSound s) (done-injective t s' (sym ran ∙ run)) sound

Step-IsSound : {s s' : Notify} → Step s s' → IsSound s → IsSound s'
Step-IsSound (notified s) h = close_notify-parts s.close_notifyc s.client_gone s.reader s.copying h
Step-IsSound (ended {s} {s'} e) h =
    after_end s.close_notifyc s.client_gone s.reader s.copying s' h e

-- In every state that a connection reaches, however often handlers call `CloseNotify` and whenever the
-- goroutine ends, either there is no channel and nothing is copied, or there is an open channel and
-- one goroutine, which copies from the connection, or the channel is closed, the client is noted as
-- gone, and nothing is copied.
pub Reach-IsSound : (s : Notify) → Reach new_notify s → IsSound s
Reach-IsSound s here = (refl, refl, refl)
Reach-IsSound s (next r st) = Step-IsSound st (Reach-IsSound _ r)

-- From every such state the end of a goroutine closes the channel, and closes it without a panic; and
-- the goroutine copies from the connection, never from its own pipe.
pub Reach-Closes :
    (s : Notify) (x : Source) (rest : List Source)
    → Reach new_notify s
    → s.copying ≡ x ∷ rest
    → Closes s x
Reach-Closes s x rest r e =
    let sound : Fits s.close_notifyc s.client_gone s.reader (x ∷ rest) =
      subst (λ (l : List Source). Fits s.close_notifyc s.client_gone s.reader l) e
        (Reach-IsSound s r) in
    subst (λ (l : List Source). Closes (parts s.close_notifyc s.client_gone s.reader l) x) (sym e)
      (copy_ends-parts s.close_notifyc s.client_gone s.reader x rest sound)
