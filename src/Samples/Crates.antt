-- ===== src/Samples/Crates.antt =====
-- A toy digest and a toy encoding that keep the laws that src/oauth.rs relies on, and serializers of
-- its records.
use engram_mcp.Common.{
  ℕ, zero, suc, ◌+◌, ◌-◌, ◌≡◌, refl, ap, Bool, true, false, Option, none, some, List, [], ◌∷◌, Text,
  has_char, text_eq, text_eq_iff, arith,
}
use engram_mcp.OAuth.Crates.{Subtle, Crypto}
use engram_mcp.HashMap.{HashMap, text_key, from_list, from_list-entries}
use engram_mcp.OAuth.Scopes.{ScopeGrant}
use engram_mcp.OAuth.Families.{RefreshTokenFamily, RefreshTokenState}
use engram_mcp.OAuth.Tokens.{AccessTokenClaims, RefreshTokenClaims}
use engram_mcp.OAuth.Clients.{
  ClientAuthenticationMethod, public, client_secret_post, client_secret_basic, ClientIdPayload,
}
use engram_mcp.OAuth.Codes.{SignedApprovalRequest}
use engram_mcp.Samples.Codec.{Codec, text_codec, number_codec, list_codec, via, ◌⊗◌}

abbrev pub subtle : Subtle
subtle = record { ct_eq = text_eq; ct_eq_iff = text_eq_iff }

-- Every byte is moved behind the dot.
abbrev shift_up : Text → Text
shift_up [] = []
shift_up (b ∷ bs) = (b + 47) ∷ shift_up bs

abbrev shift_down : Text → Text
shift_down [] = []
shift_down (c ∷ cs) = (c - 47) ∷ shift_down cs

pub shift_down-shift_up : (bs : Text) → shift_down (shift_up bs) ≡ bs
shift_down-shift_up [] = refl
shift_down-shift_up (b ∷ bs) = ground (arith, shift_down-shift_up bs)

pub shift_up_no_dot : (bs : Text) → has_char b'.' (shift_up bs) ≡ false
unfolding has_char
shift_up_no_dot [] = refl
shift_up_no_dot (b ∷ bs) = ground (arith, shift_up_no_dot bs)

abbrev pub crypto : Crypto
crypto = record {
  subtle = subtle;
  hmac_sha256 = λ key message. message;
  sha256 = λ message. message;
  encode = shift_up;
  decode = λ t. some (shift_down t);
  standard_decode = λ t. none;
  decode-encode = λ b. ap some (shift_down-shift_up b);
  encode_no_dot = shift_up_no_dot;
}

abbrev pub grant_codec : Codec ScopeGrant
grant_codec =
    via (list_codec text_codec) (λ s. record { scopes = s }) (λ (g : ScopeGrant). g.scopes)
      (λ g. refl)

abbrev option_of : List Text → Option Text
option_of [] = none
option_of (t ∷ ts) = some t

abbrev list_of : Option Text → List Text
list_of none = []
list_of (some t) = t ∷ []

pub option_of-list_of : (o : Option Text) → option_of (list_of o) ≡ o
option_of-list_of none = refl
option_of-list_of (some t) = refl

abbrev pub option_codec : Codec (Option Text)
option_codec = via (list_codec text_codec) option_of list_of option_of-list_of

abbrev method_of : ℕ → ClientAuthenticationMethod
method_of zero = public
method_of (suc zero) = client_secret_post
method_of (suc (suc n)) = client_secret_basic

abbrev method_number : ClientAuthenticationMethod → ℕ
method_number public = 0
method_number client_secret_post = 1
method_number client_secret_basic = 2

pub method_of-method_number : (m : ClientAuthenticationMethod) → method_of (method_number m) ≡ m
method_of-method_number public = refl
method_of-method_number client_secret_post = refl
method_of-method_number client_secret_basic = refl

abbrev pub method_codec : Codec ClientAuthenticationMethod
method_codec = via number_codec method_of method_number method_of-method_number

abbrev pub access_codec : Codec AccessTokenClaims
access_codec =
    via
      (number_codec ⊗ text_codec ⊗ text_codec ⊗ grant_codec ⊗ text_codec ⊗ number_codec
        ⊗ number_codec)
      (λ (v, (t, (f, (s, (a, (i, e)))))). record {
        version = v;
        token_id = t;
        family_id = f;
        scopes = s;
        audience = a;
        issued_at = i;
        expires_at = e;
      })
      (λ (c : AccessTokenClaims). (
        c.version,
        (c.token_id, (c.family_id, (c.scopes, (c.audience, (c.issued_at, c.expires_at))))),
      ))
      (λ c. refl)

abbrev pub refresh_codec : Codec RefreshTokenClaims
refresh_codec =
    via
      (number_codec ⊗ text_codec ⊗ text_codec ⊗ text_codec ⊗ grant_codec ⊗ text_codec ⊗ number_codec
        ⊗ number_codec)
      (λ (v, (f, (t, (b, (s, (a, (i, e))))))). record {
        version = v;
        family_id = f;
        token_id = t;
        client_binding = b;
        scopes = s;
        audience = a;
        issued_at = i;
        expires_at = e;
      })
      (λ (c : RefreshTokenClaims). (
        c.version,
        (
          c.family_id,
          (c.token_id, (c.client_binding, (c.scopes, (c.audience, (c.issued_at, c.expires_at))))),
        ),
      ))
      (λ c. refl)

abbrev pub client_codec : Codec ClientIdPayload
client_codec =
    via (number_codec ⊗ list_codec text_codec ⊗ method_codec ⊗ grant_codec ⊗ number_codec)
      (λ (v, (r, (m, (s, i)))). record {
        version = v;
        redirect_uris = r;
        token_endpoint_auth_method = m;
        scopes = s;
        issued_at = i;
      })
      (λ (c : ClientIdPayload).
        (c.version, (c.redirect_uris, (c.token_endpoint_auth_method, (c.scopes, c.issued_at)))))
      (λ c. refl)

abbrev pub approval_codec : Codec SignedApprovalRequest
approval_codec =
    via
      (text_codec ⊗ text_codec ⊗ grant_codec ⊗ option_codec ⊗ text_codec ⊗ text_codec
        ⊗ number_codec)
      (λ (c, (r, (s, (t, (a, (p, e)))))). record {
        client_id = c;
        redirect_uri = r;
        requested_scopes = s;
        state = t;
        resource = a;
        code_challenge = p;
        expires_at = e;
      })
      (λ (c : SignedApprovalRequest). (
        c.client_id,
        (
          c.redirect_uri,
          (c.requested_scopes, (c.state, (c.resource, (c.code_challenge, c.expires_at)))),
        ),
      ))
      (λ c. refl)

abbrev bool_of : ℕ → Bool
bool_of zero = false
bool_of (suc n) = true

abbrev bool_number : Bool → ℕ
bool_number false = 0
bool_number true = 1

pub bool_of-bool_number : (b : Bool) → bool_of (bool_number b) ≡ b
bool_of-bool_number false = refl
bool_of-bool_number true = refl

abbrev pub bool_codec : Codec Bool
bool_codec = via number_codec bool_of bool_number bool_of-bool_number

abbrev pub family_codec : Codec RefreshTokenFamily
family_codec =
    via (text_codec ⊗ number_codec ⊗ bool_codec)
      (λ (h, (e, r)). record { active_token_hash = h; expires_at = e; revoked = r })
      (λ (f : RefreshTokenFamily). (f.active_token_hash, (f.expires_at, f.revoked))) (λ f. refl)

pub RefreshTokenFamily-IsSet : IsSet RefreshTokenFamily
RefreshTokenFamily-IsSet = hlevel

abbrev pub state_codec : Codec RefreshTokenState
state_codec =
    via (number_codec ⊗ list_codec (text_codec ⊗ family_codec))
      (λ (v, es). record { version = v; families = from_list es })
      (λ (s : RefreshTokenState). (s.version, s.families.entries))
      (λ s.
        ap (λ (m : HashMap Text RefreshTokenFamily). record { version = s.version; families = m })
          (from_list-entries RefreshTokenFamily-IsSet s.families))
