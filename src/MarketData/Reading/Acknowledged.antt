-- ===== src/MarketData/Reading/Acknowledged.antt =====
-- A consumer group's messages are acknowledged in the order in which they were delivered, each at
-- most once.
pub mod Run
use mathlib.Core.List.{append_assoc, append-nil}
use swr_ddd.Common.{
  ℕ, zero, suc, Bool, true, false, Bool-cases, inl, inr, Option, none, some, List, [], ◌∷◌, ◌++◌,
  if◌then◌else◌, ◌≡◌, refl, sym, ap, subst, ◌∙◌, arith, Outcome, NoneType, returned, raised,
}
use swr_ddd.Common.Text.{Text}
use swr_ddd.Common.Dict.{Dict}
use swr_ddd.MarketData.Streams.{MarketDataRedisKeys}
use swr_ddd.MarketData.Decoding.{Python, Tick, IngressError, redis_failed, stream_payload_to_tick}
use swr_ddd.MarketData.Ingress.{
  Redis, Call, open_client, close_client, xgroup_create, xread, xreadgroup, on_tick, xack, wait,
  Result, Fields, Reply, disconnected, messages, group_ready, group_failed, ack,
  handle_group_fields, reconnect_backoff_seconds,
}
use swr_ddd.MarketData.Ingress.Messages.{
  pass_fields, pass_decoded, pass_tick, fields_of, handle_group_fields-pass,
}
use swr_ddd.MarketData.Reading

-- a stream and a message of it
abbrev pub Entry : Type 0
Entry = Text × Text

abbrev pub entries_of_stream : Text → List (Text × Fields) → List Entry
entries_of_stream s [] = []
entries_of_stream s ((m, fields) ∷ rest) = (s, m) ∷ entries_of_stream s rest

abbrev pub entries_of_batch : Reading.Batch → List Entry
entries_of_batch [] = []
entries_of_batch ((s, ms) ∷ rest) = entries_of_stream s ms ++ entries_of_batch rest

abbrev pub entries_of_reply : Reply → List Entry
entries_of_reply disconnected = []
entries_of_reply (messages batch) = entries_of_batch batch

module _ {N : Type 0} where
  -- the messages that a call delivered, and those that it asked to acknowledge
  abbrev delivered_by : Call N → List Entry
  delivered_by (xreadgroup reply) = entries_of_reply reply
  delivered_by _ = []

  abbrev acked_by : Call N → List Entry
  acked_by (xack s m) = (s, m) ∷ []
  acked_by _ = []

  abbrev pub delivered : List (Call N) → List Entry
  delivered [] = []
  delivered (c ∷ t) = delivered_by c ++ delivered t

  abbrev pub acked : List (Call N) → List Entry
  acked [] = []
  acked (c ∷ t) = acked_by c ++ acked t

  pub delivered-append : (t u : List (Call N)) → delivered (t ++ u) ≡ delivered t ++ delivered u
  delivered-append [] u = refl
  delivered-append (c ∷ t) u =
      rw (delivered-append t u) (sym (append_assoc (delivered_by c) (delivered t) (delivered u)))

  pub acked-append : (t u : List (Call N)) → acked (t ++ u) ≡ acked t ++ acked u
  acked-append [] u = refl
  acked-append (c ∷ t) u =
      rw (acked-append t u) (sym (append_assoc (acked_by c) (acked t) (acked u)))

  -- What was delivered is what was acknowledged, and then `owed`.
  abbrev pub Balanced : List Entry → List (Call N) → Type 0
  Balanced owed t = delivered t ≡ acked t ++ owed

  -- After a return exactly `owed` is not acknowledged, after an exception some last messages are not.
  abbrev pub Owes {ℓ} : {A : Type ℓ} → List Entry → Result N A → Type 0
  Owes owed (returned a, t) = Balanced owed t
  Owes owed (raised e, t) = (backlog : List Entry) × Balanced backlog t

  pub quiet_call :
      (owed : List Entry) (t u : List (Call N))
      → delivered u ≡ []
      → acked u ≡ []
      → Balanced owed t
      → Balanced owed (t ++ u)
  quiet_call owed t u d a b =
      rw
        (
          delivered-append t u,
          acked-append t u,
          d,
          a,
          append-nil (delivered t),
          append-nil (acked t),
        )
        b

  pub ack_call :
      (s m : Text) (owed : List Entry) (t : List (Call N))
      → Balanced ((s, m) ∷ owed) t
      → Balanced owed (t ++ xack s m ∷ [])
  ack_call s m owed t b =
      rw
        (
          delivered-append t (xack s m ∷ []),
          acked-append t (xack s m ∷ []),
          append-nil (delivered t),
          append_assoc (acked t) ((s, m) ∷ []) owed,
        )
        b
