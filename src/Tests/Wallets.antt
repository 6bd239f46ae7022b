-- ===== src/Tests/Wallets.antt =====
-- Runs of the nonces, the passkey assertions and the sign-in of wallets.
use latch_api.WebAuthn.Assertion.{IsSigned, verify_webauthn_assertion_iff}
use latch_api.WebAuthn.Origin.{SameOrigin, origin_allowed-SameOrigin}
use latch_api.WebAuthn.Distinct.{IsDistinct, IsPoint, webauthn_signer_keys-AreKeys}
use latch_api.Common.Base64.{base64_url_encode}
use latch_api.WalletNonce.SingleUse.{consume_nonce-nonce_unknown}
use latch_api.WalletNonce.Held.{NonceCall, serve_nonces, issue_call, consume_call}
use latch_api.Tests.Setting.{ext}
use latch_api.Tests.Memory.{memory, nothing}
use latch_api.WebAuthn.Keys.{
  AccountReader, webauthn_signer_keys, value, scan_rules, add_new, webauthn_keys_from_rule, missing,
  points_of_entries, sc_map, points_of_signers, entry, point_of_signer, sc_symbol, sc_vec, val,
  sc_other, sc_bytes, no_vals, no_entries,
}
use latch_api.WebAuthn.{origin_allowed, ClientData, P256, verify_webauthn_assertion, https_form}
use latch_api.WalletNonce.Binding.{NoBar, consume_nonce-issue_with_ttl}
use latch_api.Common.{
  is_ok, ◌≡◌, List, ◌∷◌, arith, [], ℕ, some, ok, true, ◌≢◌, ◌<◌, replicate, false, if◌then◌else◌,
  ap, ◌+◌, any, ◌↔◌, ◌==◌, refl, All,
}
use latch_api.WalletNonce.{issue_with_ttl, consume_nonce, get_del}
use latch_api.Common.Text.{Text, hex_encode, is_empty, codes, text_eq}
use latch_api.Common.Database.{World}

abbrev nonces : World memory.State
nonces = record { store = λ k. nothing; calls = 0; outage = λ n. false }

abbrev wallet : Text
wallet = codes "GABC"

issued :
    (issue_with_ttl memory 1000
      (some (255 ∷ []))
      wallet
      (codes "ed25519")
      (codes "testnet")
      60000
      nonces).0
    ≡ ok (codes "ff", 60000)
unfolding issue_with_ttl hex_encode
issued = refl

abbrev after_issue : World memory.State
after_issue =
    (issue_with_ttl memory 1000 (some (255 ∷ [])) wallet (codes "ed25519") (codes "testnet") 60000
      nonces).1

accepts :
    (consume_nonce memory 2000
      (codes "ff")
      wallet
      (codes "ed25519")
      (codes "testnet")
      after_issue).0
    ≡ ok tt
unfolding issue_with_ttl hex_encode consume_nonce get_del text_eq
accepts = refl

accepts_is_ok :
    is_ok
      (consume_nonce memory 2000
        (codes "ff")
        wallet
        (codes "ed25519")
        (codes "testnet")
        after_issue).0
    ≡ true
accepts_is_ok = ap is_ok accepts

wallet_plain : NoBar wallet
wallet_plain = (
  λ e. absurd (omega (arith, e)),
  (
    (λ e. absurd (omega (arith, e))),
    ((λ e. absurd (omega (arith, e))), ((λ e. absurd (omega (arith, e))), tt)),
  ),
)

issued_ed :
    (issue_with_ttl memory 1000
      (some (255 ∷ []))
      wallet
      (codes "ed")
      (codes "testnet")
      60000
      nonces).0
    ≡ ok (codes "ff", 60000)
unfolding issue_with_ttl hex_encode
issued_ed = refl

-- Another nonce is issued, and a request with a third one refused.
abbrev in_between : List NonceCall
in_between =
    issue_call 1500 (some (1 ∷ [])) wallet (codes "ed25519") (codes "mainnet") 60000
    ∷ consume_call 1600 (codes "ee") wallet (codes "ed25519") (codes "testnet")
    ∷ []

accepts_ed :
    (consume_nonce memory 2000 (codes "ff") wallet (codes "ed") (codes "testnet") (
      serve_nonces memory in_between
        (issue_with_ttl memory 1000
          (some (255 ∷ []))
          wallet
          (codes "ed")
          (codes "testnet")
          60000
          nonces).1)).0
    ≡ ok tt
unfolding serve_nonces issue_with_ttl hex_encode consume_nonce get_del text_eq
accepts_ed = refl

other : hex_encode (1 ∷ []) ≢ codes "ff"
unfolding hex_encode
other e = cc

admits : origin_allowed (codes "latch.finance") (codes "https://latch.finance" ∷ []) ≡ true
unfolding origin_allowed https_form text_eq
admits = refl

consume_nonce-issue_with_ttl_example :
    (wallet ≡ wallet)
    × (codes "ed" ≡ codes "ed")
    × (codes "testnet" ≡ codes "testnet")
    × (2000 < 1000 + 60000)
consume_nonce-issue_with_ttl_example =
    consume_nonce-issue_with_ttl memory in_between nonces 1000 2000 (some (255 ∷ [])) wallet
      (codes "ed") (codes "testnet") wallet (codes "ed") (codes "testnet") 60000 (omega arith)
      wallet_plain wallet_plain ed_plain ed_plain issued_ed (other, (tt, tt)) accepts_ed
  where
    ed_plain : NoBar (codes "ed")
    ed_plain = (λ e. absurd (omega (arith, e)), ((λ e. absurd (omega (arith, e))), tt))

consume_nonce-nonce_unknown_example :
    is_ok
      (consume_nonce memory 4000 (codes "ff") wallet (codes "ed25519") (codes "mainnet") (
        serve_nonces memory
          (issue_call 3000 (some (1 ∷ [])) wallet (codes "ed25519") (codes "mainnet") 60000
            ∷ consume_call 3500 (codes "ff") wallet (codes "ed25519") (codes "testnet")
            ∷ [])
          (consume_nonce memory 2000
            (codes "ff")
            wallet
            (codes "ed25519")
            (codes "testnet")
            after_issue).1)).0
    ≡ false
consume_nonce-nonce_unknown_example =
    consume_nonce-nonce_unknown memory
      (issue_call 3000 (some (1 ∷ [])) wallet (codes "ed25519") (codes "mainnet") 60000
        ∷ consume_call 3500 (codes "ff") wallet (codes "ed25519") (codes "testnet")
        ∷ [])
      after_issue 2000 4000 (codes "ff") wallet (codes "ed25519") (codes "testnet") wallet
      (codes "ed25519") (codes "mainnet") accepts_is_ok (other, (tt, tt))

-- The passkey of a test wallet: a point of 65 bytes.
abbrev point : List ℕ
point = 4 ∷ replicate 64 7

abbrev client_data : ClientData
client_data = record {
  type_name = codes "webauthn.get";
  challenge = base64_url_encode (1 ∷ 2 ∷ []);
  origin = codes "latch.finance";
}

abbrev p256 : P256
p256 = record {
  parse_client_data = λ bytes. some client_data;
  is_on_curve = λ raw. true;
  verify_asn1 = λ key digest signature. text_eq key point;
}

origin_allowed-SameOrigin_example :
    (is_empty (codes "latch.finance") ≡ false)
    × (a : Text) × (any (text_eq a) (codes "https://latch.finance" ∷ []) ≡ true)
    × SameOrigin (codes "latch.finance") a
origin_allowed-SameOrigin_example =
    origin_allowed-SameOrigin (codes "latch.finance") (codes "https://latch.finance" ∷ []) admits

verify_webauthn_assertion_iff_example :
    (verify_webauthn_assertion ext p256
        (point ∷ [])
        (1 ∷ 2 ∷ [])
        (replicate 37 0)
        (codes "{}")
        (9 ∷ [])
        (codes "https://latch.finance" ∷ [])
      ≡ ok tt)
    ↔ IsSigned ext p256
        (point ∷ [])
        (1 ∷ 2 ∷ [])
        (replicate 37 0)
        (codes "{}")
        (9 ∷ [])
        (codes "https://latch.finance" ∷ [])
verify_webauthn_assertion_iff_example =
    verify_webauthn_assertion_iff ext p256 (point ∷ []) (1 ∷ 2 ∷ []) (replicate 37 0) (codes "{}")
      (9 ∷ []) (codes "https://latch.finance" ∷ [])

abbrev reader : AccountReader
reader = record {
  rules_count = value 1;
  rule = λ id.
      if id == 0
      then missing
      else value (
          sc_map (
            entry (sc_symbol (codes "signers"))
              (sc_vec (
                val
                  (sc_vec (
                    val (sc_symbol (codes "External"))
                      (val sc_other (val (sc_bytes (4 ∷ replicate 66 7)) no_vals))))
                  (val sc_other no_vals)))
              no_entries));
}

reads_point : webauthn_signer_keys reader ≡ ok (point ∷ [])
unfolding webauthn_signer_keys scan_rules add_new webauthn_keys_from_rule points_of_entries
    points_of_signers point_of_signer text_eq
reads_point = refl

webauthn_signer_keys-AreKeys_example :
    (point ∷ [] ≢ []) × IsDistinct (point ∷ []) × All IsPoint (point ∷ [])
webauthn_signer_keys-AreKeys_example = webauthn_signer_keys-AreKeys reader (point ∷ []) reads_point
