-- ===== src/TcpConnection/Invariant.antt =====
-- What a connection keeps between two calls in its loop, and its channel's switches.
use dserver.Prelude.{◌≡◌, refl, ap, ◌∙◌, false, not, ◌&&◌, some, ltb, length}
use dserver.Buffer.Contents.{IsValid, contents}
use dserver.Channel.{Switch, switched, is_writing}
use dserver.Poller.{Epoll, Poller}
use dserver.Poller.Invariant.{IsConsistent, IsFree}
use dserver.Poller.Calls.{switch_channel_lem}
use dserver.TcpConnection.{TcpConnection, own_channel, switch, is_connecting, is_disconnected}

module _ (ep : Epoll) where
  pub record IsSound (c : TcpConnection ep) : Type 0 where
    pub consistent : IsConsistent ep c.poller
    pub free : IsFree ep c.poller c.channel
    pub registered :
        is_connecting c.state ≡ false → c.poller.channels (own_channel ep c).fd ≡ some c.channel
    pub input_valid : IsValid c.input_buffer
    pub output_valid : IsValid c.output_buffer
    -- The channel waits to write exactly while an open connection holds bytes to write.
    pub awaits :
        is_writing (own_channel ep c)
        ≡ (not (is_disconnected c.state) && ltb 0 (length (contents c.output_buffer)))

  -- The switch of a channel changes the poller only.
  abbrev pub Switches : TcpConnection ep → Switch → Poller ep → Type 0
  Switches c w t =
      IsConsistent ep t
      × (t.channels (t.heap c.channel).fd ≡ some c.channel)
      × ((t.heap c.channel).events ≡ switched w (own_channel ep c).events)
      × ((t.heap c.channel).fd ≡ (own_channel ep c).fd)

  pub switch_lem :
      (c : TcpConnection ep) (w : Switch)
      → IsConsistent ep c.poller
      → IsFree ep c.poller c.channel
      → (t : Poller ep) × (switch ep c w ≡ some (record c { poller = t })) × Switches c w t
  unfolding switch
  switch_lem c w v f =
      let (t, e, v', m, s, h) = switch_channel_lem ep c.poller c.channel w v f in
      (
        t,
        rw e refl,
        (
          v',
          ap (λ j. t.channels j) (v'.known (own_channel ep c).fd c.channel m) ∙ m,
          s,
          v'.known (own_channel ep c).fd c.channel m,
        ),
      )
