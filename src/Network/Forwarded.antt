-- ===== src/Network/Forwarded.antt =====
-- Which entry of X-Forwarded-For is believed (backend/network/client_ip.go).
use cert_vault.Prelude.{
  String, ◌≡◌, ◌⊎◌, ◌∙◌, refl, ap, sym, Bool, true, false, Option, none, some, List, [], ◌∷◌, ◌++◌,
  map, All, Bool-cases, inl, inr,
}
use mathlib.Core.List.{append-nil, append_assoc}
use cert_vault.Network.{trusted, scan, candidate, backwards, forwarded_ip}

module _ (Address Prefix : Type 0) (parse : String → Option Address) (unmap : Address → Address)
    (show : Address → String) (within : Prefix → Address → Bool)
    (split_host_port : String → Option String) where
  abbrev believed : List Prefix → Address → Bool
  believed = trusted Address Prefix parse unmap show within split_host_port

  abbrev read : List Prefix → String → List (Option Address) → String
  read = scan Address Prefix parse unmap show within split_host_port

  -- an entry that is not the address of a trusted proxy
  abbrev pub Stops : List Prefix → Option Address → Type 0
  Stops prefixes none = Unit
  Stops prefixes (some address) = believed prefixes address ≡ false

  abbrev pub StopIn : List Prefix → List (Option Address) → Type 0
  StopIn prefixes [] = ⊥
  StopIn prefixes (c ∷ cs) = Stops prefixes c ⊎ StopIn prefixes cs

  scan-append :
      (prefixes : List Prefix) (peer : String) (near far far' : List (Option Address))
      → StopIn prefixes near
      → read prefixes peer (near ++ far) ≡ read prefixes peer (near ++ far')
  unfolding scan
  scan-append prefixes peer [] far far' h = absurd h
  scan-append prefixes peer (none ∷ near) far far' h = refl
  scan-append prefixes peer (some a ∷ near) far far' (inl stop) = rw stop refl
  scan-append prefixes peer (some a ∷ near) far far' (inr later) =
      rw (scan-append prefixes (show a) near far far' later) refl

  backwards-append :
      (far near : List String) → backwards (far ++ near) ≡ backwards near ++ backwards far
  unfolding backwards
  backwards-append [] near = sym (append-nil (backwards near))
  backwards-append (entry ∷ far) near =
      ap (λ r. r ++ entry ∷ []) (backwards-append far near)
      ∙ append_assoc (backwards near) (backwards far) (entry ∷ [])

  map-append :
      (f : String → Option Address) (xs ys : List String) → map f (xs ++ ys) ≡ map f xs ++ map f ys
  map-append f [] ys = refl
  map-append f (x ∷ xs) ys = ap (λ r. f x ∷ r) (map-append f xs ys)

  abbrev parsed : String → Option Address
  parsed = candidate Address Prefix parse unmap show within split_host_port

  abbrev answer : List Prefix → String → List String → String
  answer = forwarded_ip Address Prefix parse unmap show within split_host_port

  -- A client cannot forge its address: what stands in X-Forwarded-For before an entry that is not
  -- the address of a trusted proxy has no effect on the answer.
  pub forwarded_ip-append :
      (prefixes : List Prefix) (peer : String) (far far' near : List String)
      → StopIn prefixes (map parsed (backwards near))
      → answer prefixes peer (far ++ near) ≡ answer prefixes peer (far' ++ near)
  unfolding forwarded_ip
  forwarded_ip-append prefixes peer far far' near h =
      rw
        (
          backwards-append far near,
          backwards-append far' near,
          map-append parsed (backwards near) (backwards far),
          map-append parsed (backwards near) (backwards far'),
        )
        (scan-append prefixes peer (map parsed (backwards near)) (map parsed (backwards far))
          (map parsed (backwards far')) h)

  -- the text of the last of some addresses
  abbrev last_shown : String → List Address → String
  last_shown peer [] = peer
  last_shown peer (a ∷ more) = last_shown (show a) more

  abbrev pub AreBelieved : List Prefix → List Address → Type 0
  AreBelieved prefixes near = All (λ a. believed prefixes a ≡ true) near

  -- what stops the loop, after the trusted proxies `near`
  pub data IsAnswer (prefixes : List Prefix) (peer : String)
      : List (Option Address) → String → Type 0 where
    exhausted :
        (near : List Address)
        → AreBelieved prefixes near
        → IsAnswer prefixes peer (map some near) (last_shown peer near)
    unreadable :
        (near : List Address) (far : List (Option Address))
        → AreBelieved prefixes near
        → IsAnswer prefixes peer (map some near ++ none ∷ far) (last_shown peer near)
    outside :
        (near : List Address) (a : Address) (far : List (Option Address))
        → AreBelieved prefixes near
        → believed prefixes a ≡ false
        → IsAnswer prefixes peer (map some near ++ some a ∷ far) (show a)

  behind :
      (prefixes : List Prefix) (peer : String) (a : Address) {cs : List (Option Address)}
      {text : String}
      → believed prefixes a ≡ true
      → IsAnswer prefixes (show a) cs text
      → IsAnswer prefixes peer (some a ∷ cs) text
  behind prefixes peer a b (exhausted near all) = exhausted (a ∷ near) (b, all)
  behind prefixes peer a b (unreadable near far all) = unreadable (a ∷ near) far (b, all)
  behind prefixes peer a b (outside near c far all stop) = outside (a ∷ near) c far (b, all) stop

  scan-IsAnswer :
      (prefixes : List Prefix) (peer : String) (cs : List (Option Address))
      → IsAnswer prefixes peer cs (read prefixes peer cs)
  unfolding scan
  scan-IsAnswer prefixes peer [] = exhausted [] tt
  scan-IsAnswer prefixes peer (none ∷ cs) = unreadable [] cs tt
  scan-IsAnswer prefixes peer (some a ∷ cs) = elim (Bool-cases (believed prefixes a)) [
    | inl proxy ↦ rw proxy (behind prefixes peer a proxy (scan-IsAnswer prefixes (show a) cs))
    | inr client ↦ rw client (outside [] a cs tt client)
  ]

  -- Read from its end, X-Forwarded-For gives the first address that is no trusted proxy's. Where an
  -- entry before that is no address, or all are trusted proxies, it gives the last proxy that has
  -- been read, or the peer's address if there is none.
  pub forwarded_ip-IsAnswer :
      (prefixes : List Prefix) (peer : String) (entries : List String)
      → IsAnswer prefixes peer (map parsed (backwards entries)) (answer prefixes peer entries)
  unfolding forwarded_ip
  forwarded_ip-IsAnswer prefixes peer entries =
      scan-IsAnswer prefixes peer (map parsed (backwards entries))
