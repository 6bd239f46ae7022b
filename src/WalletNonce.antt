-- ===== src/WalletNonce.antt =====
-- Challenge nonces of wallets: internal/service/wallet_nonce.go over Redis, and the network that a
-- request names: internal/deploynet/deploynet.go. Times are in milliseconds.
pub mod Held
pub mod SingleUse
pub mod Binding
use latch_api.Common.{◌++◌, Option, ◌∷◌, List, not, Result, if◌then◌else◌, ◌||◌, err, ok}
use latch_api.Redis.{Redis}
use latch_api.Common.Text.{
  Text, text_eq, codes, hex_encode, trim_space, lower_byte, to_lower, is_empty,
}
use Prim.Native.Nat.{ℕ, ◌*◌}
use latch_api.Common.Database.{Action, pure, query, exec, or_fail, fail_if, ◌>>=◌, ◌>>◌}

abbrev pub wallet_nonce_ttl : ℕ
wallet_nonce_ttl = 60 * 1000

abbrev pub deploy_nonce_ttl : ℕ
deploy_nonce_ttl = 5 * 60 * 1000

abbrev pub wallet_nonce_bytes : ℕ
wallet_nonce_bytes = 32

abbrev pub wallet_nonce_prefix : Text
wallet_nonce_prefix = codes "walletnonce:"

pub data NonceError : Type 0 where
  nonce_unknown nonce_mismatch no_random_bytes internal : NonceError

-- `bind`
abbrev pub bind : Text → Text → Text → Text
bind wallet key_type network = wallet ++ b'|' ∷ (key_type ++ b'|' ∷ network)

module _ (redis : Redis) where
  abbrev pub NonceAction : Type 0 → Type 0
  NonceAction = Action redis.State NonceError

  -- `IssueWithTTL`, on the bytes that it draws.
  unfoldable pub issue_with_ttl :
      ℕ → Option (List ℕ) → Text → Text → Text → ℕ → NonceAction (Text × ℕ)
  unfolding hex_encode
  issue_with_ttl now random wallet key_type network ttl = do
    raw ← or_fail no_random_bytes random
    exec internal
        (redis.set now (wallet_nonce_prefix ++ hex_encode raw) (bind wallet key_type network) ttl)
    pure (hex_encode raw, ttl)

  -- `Issue`
  unfoldable pub issue_nonce : ℕ → Option (List ℕ) → Text → Text → Text → NonceAction (Text × ℕ)
  unfolding issue_with_ttl
  issue_nonce now random wallet key_type network =
      issue_with_ttl now random wallet key_type network wallet_nonce_ttl

  -- GETDEL
  unfoldable pub get_del : ℕ → Text → redis.State → Option Text × redis.State
  get_del now k s = (redis.get now k s, redis.del k s)

  -- `Consume`
  unfoldable pub consume_nonce : ℕ → Text → Text → Text → Text → NonceAction (Unit {0})
  unfolding get_del text_eq
  consume_nonce now nonce_hex wallet key_type network = do
    found ← query internal (get_del now (wallet_nonce_prefix ++ nonce_hex))
    stored ← or_fail nonce_unknown found
    fail_if (not (text_eq stored (bind wallet key_type network))) nonce_mismatch
    pure tt

abbrev pub testnet : Text
testnet = codes "testnet"

abbrev pub mainnet : Text
mainnet = codes "mainnet"

pub data NetworkError : Type 0 where
  invalid_network network_mismatch : NetworkError

-- `Resolve`, where the deployment's network is `deployed`, empty before it is set.
unfoldable pub resolve : Text → Text → Result NetworkError Text
unfolding text_eq trim_space lower_byte
resolve deployed raw =
    let named = to_lower (trim_space raw) in
    if not (is_empty named || text_eq named testnet || text_eq named mainnet)
    then err invalid_network
    else if is_empty deployed
    then ok (if is_empty named then testnet else named)
    else if is_empty named || text_eq named deployed
    then ok deployed
    else err network_mismatch
