-- ===== src/Tests/SignIn.antt =====
-- A run of the sign-in of a wallet.
use latch_api.Auth.Tables.{insert_token}
use latch_api.Common.Base64.{base64_url_decode}
use latch_api.WalletNonce.{resolve, testnet, bind, consume_nonce, get_del}
use latch_api.Tests.Memory.{memory, held_at, held_text, nothing}
use latch_api.Tests.Setting.{ext}
use latch_api.WebAuthn.Keys.{AccountReader, missing}
use latch_api.Common.{some, none, false, replicate, [], ◌∷◌, ◌≡◌, ok, refl}
use latch_api.WalletSignIn.Verified.{SignedIn, sign_in-SignedIn}
use latch_api.Common.Database.{World}
use latch_api.WebAuthn.{P256}
use latch_api.WalletSignIn.{Ed25519, WalletSignInInput, sign_in, Stores, verified, verify_ed25519}
use latch_api.Auth.Service.{
  Issuer, Lifetimes, Draw, new_auth_service, key_type_ed25519, valid_wallet_shape,
  issue_wallet_token_pair, issue_wallet_refresh_token, hash_token,
}
use latch_api.Common.Text.{Text, codes, text_eq, hex_encode, trim_space, trim_left}

abbrev wallet : Text
wallet = codes "GABC"

abbrev issuer : Issuer
issuer = record { signed_string = λ c. some c.sub; is_contract_strkey = λ c. false }

abbrev life : Lifetimes
life = new_auth_service 15 30

abbrev ed : Ed25519
ed = record {
  decode_account = λ a. some (replicate 32 5);
  verify = λ key message signature. text_eq message signature;
}

abbrev p256 : P256
p256 = record {
  parse_client_data = λ bytes. none;
  is_on_curve = λ raw. false;
  verify_asn1 = λ key digest signature. false;
}

abbrev reader : Text → AccountReader
reader a = record { rules_count = missing; rule = λ id. missing }

abbrev input : WalletSignInInput
input = record {
  wallet = wallet;
  key_type = key_type_ed25519;
  network = [];
  nonce_b64url = codes "AQI";
  signature = 1 ∷ 2 ∷ [];
  authenticator_data = [];
  client_data_json = [];
  passkey_signature = [];
}

abbrev draw : Draw
draw = record {
  now = 2000;
  insert_time = 2001;
  sign_time = 2002;
  random = some (9 ∷ []);
  new_uuid = 4;
}

abbrev world : World (Stores memory)
world = record {
  store = record {
    nonces =
        held_at (codes "walletnonce:0102") (held_text (bind wallet key_type_ed25519 testnet) 5000)
          (λ k. nothing);
    tables = record { users = []; tokens = [] };
  };
  calls = 0;
  outage = λ n. false;
}

signs_in :
    (sign_in ext memory issuer life ed p256 reader [] testnet 2000 draw input world).0
    ≡ ok (wallet, codes "09")
unfolding sign_in valid_wallet_shape resolve base64_url_decode hex_encode consume_nonce get_del
    text_eq trim_space trim_left verified verify_ed25519 issue_wallet_token_pair
    issue_wallet_refresh_token hash_token insert_token
signs_in = refl

sign_in-SignedIn_example :
    SignedIn ext memory issuer life ed p256 reader [] testnet world.store 2000 input
      (wallet, codes "09")
      (sign_in ext memory issuer life ed p256 reader [] testnet 2000 draw input world).1.store
sign_in-SignedIn_example =
    sign_in-SignedIn ext memory issuer life ed p256 reader [] testnet world 2000 draw input signs_in
