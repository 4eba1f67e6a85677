-- ===== src/RateLimit/Tests.antt =====
-- The theorems on the rate limit at concrete requests on an empty table.
use ai_auto_test_platform.Runners.Versions.{codes}
use ai_auto_test_platform.RateLimit.Sources.{split}
use ai_auto_test_platform.RateLimit.Sources.{starts_with}
use ai_auto_test_platform.RateLimit.Sources.{for_value}
use ai_auto_test_platform.RateLimit.Sources.{parse_for}
use ai_auto_test_platform.RateLimit.Sources.{parse_all}
use ai_auto_test_platform.RateLimit.Sources.{forwarded_chain}
use ai_auto_test_platform.RateLimit.Sources.{
  Addresses, trusted, chain_of, peer_of, parse_ip, without_port, strip, resolve_source_ip,
}
use ai_auto_test_platform.RateLimit.Proxies.{resolve_source_ip-rightmost}
use ai_auto_test_platform.Prelude.{
  ℕ, ◌-◌, ◌≡◌, ◌==◌, refl, min, none, some, List, [], ◌∷◌, true, false,
}
use ai_auto_test_platform.Runtime.{Runtime}
use ai_auto_test_platform.Sessions.Rows.{AuditContext}
use ai_auto_test_platform.RateLimit.{State, limit_of, window_of}
use ai_auto_test_platform.RateLimit.Window.{Waits, retry_after-Waits}
use ai_auto_test_platform.RateLimit.Permits.{count_of}
use ai_auto_test_platform.RateLimit.Permits.Calls.{granted_calls, granted_calls-limit, view_of}

abbrev runtime : Runtime
runtime = record {
  ulid = λ n. "01";
  refresh_token = λ n. "token";
  clock = λ n. 1000000;
  sha256 = λ s. s;
  isoformat = λ n. "2026-07-01T00:00:00";
}

abbrev state : State
state = record {
  rows = λ d o w. none;
  store = record { sessions = []; audits = []; drawn = 0; tokens = 0; reads = 0 };
}

abbrev context : AuditContext
context = record { correlation_id = "c"; source_context = "10.0.0.1" }

granted_calls-limit_example :
    granted_calls ⦃rt = runtime⦄ "digest" [] "login_platform_user" context 100 state
    ≡ min 100 (60 - count_of ("digest" ∷ []) (view_of state "login_platform_user" 0))
unfolding limit_of window_of
granted_calls-limit_example =
    granted_calls-limit ⦃rt = runtime⦄ "digest" [] "login_platform_user" context 60 0 100 state refl
      (λ k. refl) (λ d r e. cc (e))

retry_after-Waits_example : Waits 299999999
retry_after-Waits_example = retry_after-Waits 299999999

-- Addresses of one letter, of which those that a network names are in it.
instance abbrev letters : Addresses
letters = record {
  Ip = ℕ;
  Network = ℕ;
  ip_address = λ text. elim text [ [] ↦ none | c ∷ cs ↦ some c ];
  unspecified = 0;
  compressed = λ address. address ∷ [];
  version = λ address. 4;
  network_version = λ network. 4;
  within = λ address network. address == network;
  is_space = λ c. c == 32;
  casefold = λ c. c ∷ [];
}

-- `for=x, for="c";proto=http, for=t`, where only "t" is a trusted proxy
abbrev forwarded_header : List ℕ
forwarded_header = codes "for=x, for=\"c\";proto=http, for=t"

header-chain : chain_of (some forwarded_header) none ≡ some (b'x' ∷ b'c' ∷ b't' ∷ [])
unfolding chain_of forwarded_chain parse_all parse_for for_value starts_with strip split parse_ip
    without_port
header-chain = refl

only_t-trusted : trusted b't' (b't' ∷ []) ≡ true
unfolding trusted
only_t-trusted = refl

c-untrusted : trusted b'c' (b't' ∷ []) ≡ false
unfolding trusted
c-untrusted = refl

peer_t-trusted : trusted (peer_of (b't' ∷ [])) (b't' ∷ []) ≡ true
unfolding trusted parse_ip without_port strip
peer_t-trusted = refl

resolve_source_ip-rightmost_example :
    resolve_source_ip (b't' ∷ []) (some forwarded_header) none (b't' ∷ []) ≡ b'c' ∷ []
resolve_source_ip-rightmost_example =
    resolve_source_ip-rightmost (b't' ∷ []) (b't' ∷ []) (some forwarded_header) none b'c'
      (b'x' ∷ []) (b't' ∷ []) header-chain c-untrusted (only_t-trusted, tt) peer_t-trusted
