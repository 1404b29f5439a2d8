-- ===== src/Server/Channels.antt =====
-- `tokio::sync::mpsc`: a sender is the name of its channel. A send fails if the receiver is gone.
use anywhere_mesh.Base.{
  ℕ, HashMap, get, insert, get-insert, ◌≡◌, Option, none, some, Bool, true, List, [], ◌∷◌, ◌++◌,
  Option-cases, inl, inr, nat_beq_iff, arith, nat_eq, ◌==◌, if◌then◌else◌,
}
use anywhere_mesh.Common.Types.{IngressMessage}

abbrev pub Sender : Type 0
Sender = ℕ

pub record Channel (M : Type 0) : Type 0 where
  pub receiver_alive : Bool
  pub queue : List M

-- The channels of messages of one type.
abbrev pub ChannelsOf : Type 0 → Type 0
ChannelsOf M = HashMap Sender (Channel M)

abbrev pub Channels : Type 0
Channels = ChannelsOf IngressMessage

module _ {M : Type 0} where
  -- sender.send(message): the channels with the message queued, or none if the send fails.
  unfoldable pub send : Sender → M → ChannelsOf M → Option (ChannelsOf M)
  unfolding get insert
  send tx message channels = elim (get tx channels) [
    | none ↦ none
    | some c ↦
        if c.receiver_alive
        then some (insert tx (record c { queue = c.queue ++ message ∷ [] }) channels)
        else none
  ]

  -- The messages that wait in a channel.
  unfoldable pub queued : Sender → ChannelsOf M → List M
  unfolding get
  queued tx channels = elim (get tx channels) [ none ↦ [] | some c ↦ c.queue ]

  -- A send that succeeds puts the message at the end of its channel and leaves the others alone.
  pub queued-send :
      (tx other : Sender) (message : M) (channels after : ChannelsOf M)
      → send tx message channels ≡ some after
      → queued other after
        ≡ (if tx == other then queued other channels ++ message ∷ [] else queued other channels)
  unfolding send queued
  queued-send tx other message channels after h = elim (Option-cases (get tx channels)) [
    | inl e ↦ cc (rw (e, send) at h)
    | inr (c, e) ↦ ground (
      arith,
      e,
      nat_beq_iff tx other,
      get-insert tx other (record c { queue = c.queue ++ message ∷ [] }) channels,
    )
  ]

  -- The receiver of the channel is there.
  abbrev pub IsOpen : Sender → ChannelsOf M → Type 0
  IsOpen tx channels = (c : Channel M) × (get tx channels ≡ some c) × (c.receiver_alive ≡ true)

  pub send-IsOpen :
      (tx : Sender) (message : M) (channels : ChannelsOf M)
      → IsOpen tx channels
      → (after : ChannelsOf M) × (send tx message channels ≡ some after)
  unfolding send
  send-IsOpen tx message channels (c, found, alive) = (
    insert tx (record c { queue = c.queue ++ message ∷ [] }) channels,
    rw (found, send) (rw alive),
  )

-- A channel with a receiver, in which nothing waits.
pub record IsIdle {M : Type 0} (tx : Sender) (channels : ChannelsOf M) : Type 0 where
  pub channel : Channel M
  pub found : get tx channels ≡ some channel
  pub alive : channel.receiver_alive ≡ true
  pub empty : channel.queue ≡ []
