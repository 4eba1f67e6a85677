-- ===== src/RateLimit/Proxies.antt =====
-- Which address of a chain counts as the source of a request.
use ai_auto_test_platform.Prelude.{
  ℕ, ◌≡◌, refl, ap, ◌∙◌, Option, some, List, [], ◌∷◌, ◌++◌, if◌then◌else◌, All, true, false,
}
use ai_auto_test_platform.RateLimit.Sources.{
  Addresses, trusted, chain_of, rightmost, peer_of, resolve_chain, resolve_source_ip,
}

module _ ⦃ip : Addresses⦄ (networks : List ip.Network) where
  abbrev AreTrusted : List ip.Ip → Type 0
  AreTrusted = All (λ a. trusted a networks ≡ true)

  rightmost-append :
      (left right : List ip.Ip) (default : ip.Ip)
      → rightmost networks default (left ++ right)
        ≡ rightmost networks (rightmost networks default left) right
  unfolding rightmost
  rightmost-append [] right default = refl
  rightmost-append (a ∷ left) right default =
      rightmost-append left right (if trusted a networks then default else a)

  rightmost-trusted :
      (default : ip.Ip) (proxies : List ip.Ip)
      → AreTrusted proxies
      → rightmost networks default proxies ≡ default
  unfolding rightmost
  rightmost-trusted default [] h = refl
  rightmost-trusted default (a ∷ proxies) h = rw h.0 (rightmost-trusted default proxies h.1)

  rightmost-client :
      (default client : ip.Ip) (older proxies : List ip.Ip)
      → trusted client networks ≡ false
      → AreTrusted proxies
      → rightmost networks default (older ++ (client ∷ proxies)) ≡ client
  unfolding rightmost
  rightmost-client default client older proxies own h =
      rightmost-append older (client ∷ proxies) default
      ∙ rw own (rightmost-trusted client proxies h)

  module _ (peer client : ip.Ip) (own : trusted client networks ≡ false)
      (behind : trusted peer networks ≡ true) where
    rightmost-before_peer :
        (default : ip.Ip) (older proxies : List ip.Ip)
        → AreTrusted proxies
        → rightmost networks default ((older ++ (client ∷ proxies)) ++ (peer ∷ [])) ≡ client
    rightmost-before_peer default older proxies h =
        rightmost-append (older ++ (client ∷ proxies)) (peer ∷ []) default
        ∙ (ap (λ d. rightmost networks d (peer ∷ []))
              (rightmost-client default client older proxies own h)
            ∙ rightmost-trusted client (peer ∷ []) (behind, tt))

    resolve_chain-client :
        (older proxies : List ip.Ip)
        → AreTrusted proxies
        → resolve_chain peer (some (older ++ (client ∷ proxies))) networks ≡ client
    unfolding resolve_chain
    resolve_chain-client [] proxies h = rightmost-before_peer client [] proxies h
    resolve_chain-client (a ∷ older) proxies h = rightmost-before_peer a (a ∷ older) proxies h

  -- Behind a trusted peer, and where the header that counts parses as a chain of addresses, the source
  -- is the rightmost address of the chain that is not trusted, whatever addresses stand to the left of
  -- it.
  pub resolve_source_ip-rightmost :
      (direct_peer : List ℕ) (forwarded x_forwarded_for : Option (List ℕ)) (client : ip.Ip)
      (older proxies : List ip.Ip)
      → chain_of forwarded x_forwarded_for ≡ some (older ++ (client ∷ proxies))
      → trusted client networks ≡ false
      → AreTrusted proxies
      → trusted (peer_of direct_peer) networks ≡ true
      → resolve_source_ip direct_peer forwarded x_forwarded_for networks ≡ ip.compressed client
  unfolding resolve_source_ip
  resolve_source_ip-rightmost direct_peer forwarded x_forwarded_for client older proxies e own h p =
      rw (p, e)
        (ap ip.compressed (resolve_chain-client (peer_of direct_peer) client own p older proxies h))
