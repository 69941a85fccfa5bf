-- ===== src/Monitor/Removal.antt =====
-- tonpayments/derivatives_worker.go: when a derivative may still be removed.
pub mod Opened
pub mod Sides
use ton_payment_network.Base.{
  ℕ, Bool, true, false, not, ◌&&◌, Option, none, some, Result, ok, err, ltb, ◌==◌, if◌then◌else◌,
}
use ton_payment_network.Db.Metas.{
  Status, active, want_close, closed, want_remove, removed, pending, Meta, linked_key_of,
}
use ton_payment_network.Conditionals.Resolvable.Defs.{ConditionalResolvable}
use ton_payment_network.Monitor.{MonitorState, at_least, at_most}

-- What `refreshIncomingDerivativeMeta` and the storage answer with when they fail
pub data RefreshError : Type 0 where
  meta_not_found not_incoming_derivative refresh_failed : RefreshError

pub data RemovalError : Type 0 where
  no_incoming_key no_fresh_monitor already_opened : RemovalError

-- `derivativeRemoveTerminalMeta`
unfoldable pub is_terminal : Meta → Bool
is_terminal meta = elim meta.status [
  | active ↦ false
  | want_close ↦ true
  | closed ↦ true
  | want_remove ↦ true
  | removed ↦ true
  | pending ↦ false
]

-- `derivativeIncomingKeyForRemove`
unfoldable pub incoming_key_for_remove : Meta → Option ℕ
incoming_key_for_remove meta = elim meta.incoming [
  | some side ↦ some meta.key
  | none ↦ elim meta.outgoing [ none ↦ none | some side ↦ side.linked_key ]
]

-- `derivativeCanonicalIsLong`; `key` is `derivativeLinkedKey`, a hash.
unfoldable pub canonical_is_long : (ℕ → ℕ) → Meta → ConditionalResolvable → Bool
canonical_is_long key meta c = elim (linked_key_of meta) [
  | none ↦ c.details.is_long
  | some linked ↦ if c.key == key linked then not c.details.is_long else c.details.is_long
]

-- `derivativeOrderOpenedFromMonitor`, for the direction of the order
abbrev opened_towards : Bool → ConditionalResolvable → MonitorState → Bool
opened_towards true c m = elim m.min_price [
  | some low ↦ at_most (some low) c.details.entry_price
  | none ↦ if m.history_too_old then true else m.entry_crossed
]
opened_towards false c m = elim m.max_price [
  | some high ↦ at_least (some high) c.details.entry_price
  | none ↦ if m.history_too_old then true else m.entry_crossed
]

unfoldable pub order_opened : (ℕ → ℕ) → Meta → ConditionalResolvable → MonitorState → Bool
order_opened key meta c m =
    if ltb 0 c.details.entry_price
    then opened_towards (canonical_is_long key meta c) c m
    else m.entry_crossed

-- `derivativeCanRemoveWithoutPriceHistory`, where the details tell whether the order is hedged
unfoldable pub can_remove_without_history : (Meta → Bool) → Meta → MonitorState → Bool
can_remove_without_history hedged meta m = m.history_too_old && not (hedged meta)

-- What is left to do when the monitor of the incoming side could not be refreshed: `load` is what
-- the storage has under its key.
abbrev without_monitor : Meta → Result RefreshError Meta → Result RemovalError Unit
without_monitor outgoing load = if is_terminal outgoing then ok tt else (elim load [
  | err meta_not_found ↦ ok tt
  | err not_incoming_derivative ↦ err no_fresh_monitor
  | err refresh_failed ↦ err no_fresh_monitor
  | ok incoming ↦ if is_terminal incoming then ok tt else err no_fresh_monitor
])

-- `ensureDerivativeRemovable`, with the refresh and the storage as they answer for a key
unfoldable pub ensure_derivative_removable :
    (ℕ → ℕ)
    → (Meta → Bool)
    → (ℕ → Result RefreshError (Meta × ConditionalResolvable × MonitorState))
    → (ℕ → Result RefreshError Meta)
    → Meta
    → Result RemovalError Unit
ensure_derivative_removable key hedged refresh load outgoing =
    elim (incoming_key_for_remove outgoing) [
      | none ↦ err no_incoming_key
      | some incoming ↦ elim (refresh incoming) [
        | err meta_not_found ↦ without_monitor outgoing (load incoming)
        | err not_incoming_derivative ↦ without_monitor outgoing (load incoming)
        | err refresh_failed ↦ err no_fresh_monitor
        | ok (meta, c, m) ↦
            if order_opened key meta c m
            then (if can_remove_without_history hedged meta m then ok tt else err already_opened)
            else ok tt
      ]
    ]
