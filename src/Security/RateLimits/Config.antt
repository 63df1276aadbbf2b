-- ===== src/Security/RateLimits/Config.antt =====
-- glc/security/rate_limits.py: `configure_from_yaml`, over the parsed channels.yaml and the host's
-- `int`. Where it raises, the settings read so far stay in the source's limiter; the model has none.
use glc_v.Prelude.{
  String, if◌then◌else◌, ℕ-Eq, String-Eq, ×-Eq, List-Eq, Result, ◌>>=◌, attribute_error, ok, raise,
}
use glc_v.Prelude.Int.{ℤ}
use glc_v.Prelude.Dict.{insert}
use glc_v.Prelude.Value.{Value, Fields, truthy, value_get, or_empty, null, int, object, end, field}
use glc_v.Security.RateLimits.{Limits, RateLimiter}

module _ (to_int : Value → Result ℤ) where
  -- `int(settings.get(key, otherwise))`
  unfoldable pub read_limit : Value → String → ℤ → Result ℤ
  unfolding value_get
  read_limit settings key otherwise = value_get settings (int otherwise) key >>= to_int

  unfoldable pub read_limits : Value → ℤ → ℤ → Result Limits
  unfolding read_limit
  read_limits settings mpm tpm = do
    messages ← read_limit settings "messages_per_minute" mpm
    tools ← read_limit settings "tool_calls_per_minute" tpm
    ok (record { messages_per_minute = messages; tool_calls_per_minute = tools })

  -- One channel of the loop; `rl` is its section of limits.
  unfoldable pub configure_channel : String → Value → RateLimiter → Result RateLimiter
  unfolding read_limits insert
  configure_channel channel rl s =
      if truthy rl
      then (read_limits rl s.default_mpm s.default_tpm >>= λ l.
          ok (record s { per_channel = insert channel l s.per_channel }))
      else ok s

  unfoldable pub configure_channels : Fields → RateLimiter → Result RateLimiter
  unfolding configure_channel value_get
  configure_channels end s = ok s
  configure_channels (field channel cfg fs) s = do
    rl ← value_get (or_empty cfg) null "rate_limits"
    s' ← configure_channel channel rl s
    configure_channels fs s'

  -- `d.items()`
  abbrev items_of : Value → Result Fields
  items_of (object fs) = ok fs
  items_of _ = raise attribute_error

  unfoldable pub configure_from_yaml : Value → RateLimiter → Result RateLimiter
  unfolding configure_channels read_limits value_get or_empty
  configure_from_yaml file s = do
    shared ← value_get (or_empty file) (object end) "defaults"
    defaults ← value_get shared (object end) "rate_limits"
    l ← read_limits defaults s.default_mpm s.default_tpm
    channels ← value_get (or_empty file) (object end) "channels"
    fs ← items_of (or_empty channels)
    configure_channels fs
        (record s { default_mpm = l.messages_per_minute; default_tpm = l.tool_calls_per_minute })
