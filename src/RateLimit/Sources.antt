-- ===== src/RateLimit/Sources.antt =====
-- The source of a request behind trusted proxies: `resolve_source_ip` of rate_limit.py. Texts are
-- their characters' codes.
use ai_auto_test_platform.Prelude.{
  ℕ, Option, none, some, List, [], ◌∷◌, ◌++◌, any, Bool, true, false, ◌&&◌, ◌==◌, length, select,
  if◌then◌else◌,
}

-- The module `ipaddress`, with Python's tables of white space and of case folding.
pub record Addresses : Type 1 where
  pub Ip : Type 0
  pub Network : Type 0
  pub ip_address : List ℕ → Option Ip
  -- `ip_address("0.0.0.0")`
  pub unspecified : Ip
  pub compressed : Ip → List ℕ
  pub version : Ip → ℕ
  pub network_version : Network → ℕ
  -- `value in network`
  pub within : Ip → Network → Bool
  pub is_space : ℕ → Bool
  pub casefold : ℕ → List ℕ

abbrev pub strip_start : (ℕ → Bool) → List ℕ → List ℕ
strip_start drops [] = []
strip_start drops (c ∷ cs) = let rest = strip_start drops cs in if drops c then rest else c ∷ cs

abbrev pub strip_end : (ℕ → Bool) → List ℕ → List ℕ
strip_end drops [] = []
strip_end drops (c ∷ cs) = elim (strip_end drops cs) [
  | [] ↦ if drops c then [] else c ∷ []
  | d ∷ ds ↦ c ∷ d ∷ ds
]

-- `text.strip(characters)`
unfoldable pub strip : (ℕ → Bool) → List ℕ → List ℕ
strip drops text = strip_end drops (strip_start drops text)

-- The first part of `text.split(separator)` and those after it.
unfoldable pub split : ℕ → List ℕ → List ℕ × List (List ℕ)
split separator [] = ([], [])
split separator (c ∷ cs) =
    let (first, rest) = split separator cs in
    if c == separator then ([], first ∷ rest) else (c ∷ first, rest)

abbrev pub parts : ℕ → List ℕ → List (List ℕ)
parts separator text = let (first, rest) = split separator text in first ∷ rest

abbrev pub contains : ℕ → List ℕ → Bool
contains c text = any (λ d. d == c) text

-- The text before the first such character.
abbrev pub before : ℕ → List ℕ → List ℕ
before c text = (split c text).0

-- `text.startswith(prefix)`
unfoldable pub starts_with : List ℕ → List ℕ → Bool
starts_with [] text = true
starts_with (c ∷ cs) [] = false
starts_with (c ∷ cs) (d ∷ ds) = c == d && starts_with cs ds

-- `text[n:]` behind a prefix of that length
abbrev pub after_four : List ℕ → List ℕ
after_four (a ∷ b ∷ c ∷ d ∷ rest) = rest
after_four _ = []

module _ ⦃ip : Addresses⦄ where
  open ip use {Ip, Network}

  -- `_trusted`
  unfoldable pub trusted : Ip → List Network → Bool
  trusted value networks =
      any (λ network. ip.version value == ip.network_version network && ip.within value network)
        networks

  -- `candidate[1 : candidate.index("]")]`, or without the port of an IPv4 address
  unfoldable pub without_port : List ℕ → List ℕ
  without_port [] = []
  without_port (c ∷ cs) =
      if c == b'[' && contains b']' cs
      then before b']' cs
      else if length (select (λ d. d == b':') (c ∷ cs)) == 1 && contains b'.' (c ∷ cs)
      then before b':' (c ∷ cs)
      else c ∷ cs

  -- `_parse_ip`
  unfoldable pub parse_ip : List ℕ → Option Ip
  parse_ip value = ip.ip_address (without_port (strip ip.is_space value))

  abbrev pub folded : List ℕ → List ℕ
  folded [] = []
  folded (c ∷ cs) = ip.casefold c ++ folded cs

  -- The value of the first parameter `for=` of an element.
  unfoldable pub for_value : List (List ℕ) → Option (List ℕ)
  for_value [] = none
  for_value (item ∷ items) =
      let parameter = strip ip.is_space item in
      let rest = for_value items in
      if starts_with (b'f' ∷ b'o' ∷ b'r' ∷ b'=' ∷ []) (folded parameter)
      then some (after_four parameter)
      else rest

  unfoldable pub parse_for : List ℕ → Option Ip
  parse_for element = elim (for_value (parts b';' element)) [
    | none ↦ none
    | some raw ↦ parse_ip (strip (λ c. c == b'"') (strip ip.is_space raw))
  ]

  -- The loop of both chains: the addresses of all elements, or none.
  unfoldable pub parse_all : (List ℕ → Option Ip) → List (List ℕ) → Option (List Ip)
  parse_all parse [] = some []
  parse_all parse (element ∷ elements) = elim (parse element) [
    | none ↦ none
    | some address ↦ elim (parse_all parse elements) [
      | none ↦ none
      | some addresses ↦ some (address ∷ addresses)
    ]
  ]

  unfoldable pub forwarded_chain : List ℕ → Option (List Ip)
  forwarded_chain value = parse_all parse_for (parts b',' value)

  unfoldable pub xff_chain : List ℕ → Option (List Ip)
  xff_chain value = parse_all parse_ip (parts b',' value)

  -- The chain of the header that counts: `Forwarded` where it is set and not empty, and
  -- `X-Forwarded-For` only where it is not.
  unfoldable pub chain_of : Option (List ℕ) → Option (List ℕ) → Option (List Ip)
  chain_of (some (c ∷ cs)) x_forwarded_for = forwarded_chain (c ∷ cs)
  chain_of _ (some (d ∷ ds)) = xff_chain (d ∷ ds)
  chain_of _ _ = none

  -- The rightmost address that is not trusted, or the default.
  unfoldable pub rightmost : List Network → Ip → List Ip → Ip
  rightmost networks default [] = default
  rightmost networks default (address ∷ addresses) =
      let left = if trusted address networks then default else address in
      rightmost networks left addresses

  abbrev pub peer_of : List ℕ → Ip
  peer_of direct_peer = elim (parse_ip direct_peer) [ none ↦ ip.unspecified | some peer ↦ peer ]

  unfoldable pub resolve_chain : Ip → Option (List Ip) → List Network → Ip
  resolve_chain peer none networks = peer
  resolve_chain peer (some []) networks = peer
  resolve_chain peer (some (first ∷ rest)) networks =
      rightmost networks first ((first ∷ rest) ++ (peer ∷ []))

  unfoldable pub resolve_source_ip :
      List ℕ → Option (List ℕ) → Option (List ℕ) → List Network → List ℕ
  resolve_source_ip direct_peer forwarded x_forwarded_for networks =
      let peer = peer_of direct_peer in
      if trusted peer networks
      then ip.compressed (resolve_chain peer (chain_of forwarded x_forwarded_for) networks)
      else ip.compressed peer
