-- ===== src/Middleware/Driver/Session.antt =====
-- What the wrapper of middleware/driver.go forwards without analysing it, and how the wrapped
-- drivers, connectors and connections are made. The base's entry points are parameters.
use sqlguard.Prelude.{Bool, true, List, Option, none, some, Bytes, ℤ, ◌⊎◌, inl, inr, if◌then◌else◌}
use sqlguard.Analyzer.Types.{Statement}
use sqlguard.Analyzer.Registry.{Registry}
use sqlguard.Middleware.Options.{Setter, with_driver_dialect}
use sqlguard.Middleware.Guard.{Guard, new_guard}
use sqlguard.Middleware.Driver.{Failure, no_error, err_skip, NamedValue, Reply}

-- `wTx`, over the replies of the base transaction.
pub record BaseTx : Type 0 where
  pub commit : Failure
  pub rollback : Failure

pub record WTx : Type 0 where
  pub base : BaseTx

abbrev pub tx_commit : WTx → Failure
tx_commit t = t.base.commit

abbrev pub tx_rollback : WTx → Failure
tx_rollback t = t.base.rollback

-- What a base connection is asked beside queries; an entry that is none is not implemented. `T` is
-- the type of a transaction's options.
pub record BaseSession (V T : Type 0) : Type 0 where
  pub close : Failure
  pub begin : Reply BaseTx
  pub begin_tx : Option (T → Reply BaseTx)
  pub ping : Option Failure
  pub reset_session : Option Failure
  pub is_valid : Option Bool
  pub check_named_value : Option (NamedValue V → Failure)

abbrev wrap_tx : Reply BaseTx → Reply WTx
wrap_tx (some tx, no_error) = (some (record { base = tx }), no_error)
wrap_tx (tx, err) = (none, err)

module _ {V T : Type 0} (c : BaseSession V T) where
  abbrev pub conn_close : Failure
  conn_close = c.close

  abbrev pub conn_begin : Reply WTx
  conn_begin = wrap_tx c.begin

  unfoldable pub conn_begin_tx : T → Reply WTx
  conn_begin_tx options = elim c.begin_tx [
    | none ↦ wrap_tx c.begin
    | some entry ↦ wrap_tx (entry options)
  ]

  unfoldable pub conn_ping : Failure
  conn_ping = elim c.ping [ none ↦ err_skip | some err ↦ err ]

  unfoldable pub conn_reset_session : Failure
  conn_reset_session = elim c.reset_session [ none ↦ no_error | some err ↦ err ]

  unfoldable pub conn_is_valid : Bool
  conn_is_valid = elim c.is_valid [ none ↦ true | some b ↦ b ]

  unfoldable pub conn_check_named_value : NamedValue V → Failure
  conn_check_named_value nv = elim c.check_named_value [ none ↦ err_skip | some check ↦ check nv ]

-- A base driver whose connections are `C`: with its package's path, and the connectors it makes.
pub record BaseDriver (C : Type 0) : Type 0 where
  pub open_conn : Bytes → Reply C
  pub open_connector : Option (Bytes → Reply (Reply C))
  pub package_path : Option Bytes

-- A wrapped driver, connector or connection: the base and the guard that they share.
pub record Wrapped (B : Type 0) : Type 0 where
  pub base : B
  pub guard : Guard

abbrev wrap_reply : {B : Type 0} → Guard → Reply B → Reply (Wrapped B)
wrap_reply g (some b, no_error) = (some (record { base = b; guard = g }), no_error)
wrap_reply g (b, err) = (none, err)

module _ {C : Type 0} where
  abbrev pub driver_open : Wrapped (BaseDriver C) → Bytes → Reply (Wrapped C)
  driver_open d name = wrap_reply d.guard (d.base.open_conn name)

  -- A connector is given by the reply to `Connect`; that of `dsnConnector` opens the driver.
  unfoldable pub driver_open_connector : Wrapped (BaseDriver C) → Bytes → Reply (Wrapped (Reply C))
  driver_open_connector d name = elim (d.base.open_connector) [
    | none ↦ (some (record { base = d.base.open_conn name; guard = d.guard }), no_error)
    | some entry ↦ wrap_reply d.guard (entry name)
  ]

  abbrev pub connector_connect : Wrapped (Reply C) → Reply (Wrapped C)
  connector_connect c = wrap_reply c.guard c.base

pub data RegisterError : Type 0 where
  no_base_driver not_registered : Bytes → RegisterError

module _ (fallback : Bytes → Statement) (parse_duration : Bytes → Option ℤ)
    (registry : Registry) where
  -- `WrapDriver`.
  unfoldable pub wrap_driver : {C : Type 0} → BaseDriver C → List Setter → Wrapped (BaseDriver C)
  unfolding new_guard
  wrap_driver base opts = record {
    base = base;
    guard = new_guard fallback parse_duration registry (with_driver_dialect base.package_path opts);
  }

  -- `WrapConnector`, with the package's path of the connector's driver, none without a connector.
  unfoldable pub wrap_connector :
      {C : Type 0} → Option Bytes → Reply C → List Setter → Wrapped (Reply C)
  unfolding new_guard
  wrap_connector package_path base opts = record {
    base = base;
    guard = new_guard fallback parse_duration registry (with_driver_dialect package_path opts);
  }

  -- `Register`, over what `sql.Open` gives for a driver's name, none for an error, and whether
  -- `sql.Register` panics for a name: the driver that is registered, or an error.
  unfoldable pub register_driver :
      {C : Type 0}
      → (Bytes → Option (BaseDriver C))
      → (Bytes → Bool)
      → Bytes
      → Bytes
      → List Setter
      → RegisterError ⊎ Wrapped (BaseDriver C)
  unfolding wrap_driver
  register_driver probe panics name base_driver opts = elim (probe base_driver) [
    | none ↦ inl (no_base_driver base_driver)
    | some base ↦ if panics name then inl (not_registered name) else inr (wrap_driver base opts)
  ]
