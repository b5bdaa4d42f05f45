-- ===== src/Network/Examples.antt =====
-- Addresses are texts here, and a prefix holds the one address that it is.
use cert_vault.Prelude.{
  String, ◌≡◌, refl, ◌==◌, if◌then◌else◌, Option, none, some, List, [], ◌∷◌, map, inl, inr,
}
use cert_vault.Network.{
  client_ip, forwarded_ip, candidate, backwards, split_commas, trim_space, scan, trusted, host_only,
}
use cert_vault.Network.Forwarded.{IsAnswer, forwarded_ip-append, forwarded_ip-IsAnswer}

abbrev read_address : String → Option String
read_address text = if text == "" then none else some text

abbrev same : String → String
same text = text

abbrev no_port : String → Option String
no_port _ = none

abbrev answer : List String → String → List String → String
answer = forwarded_ip String String read_address same same ◌==◌ no_port

client_behind_proxy :
    client_ip String String read_address same same ◌==◌ no_port ("10.0.0.9" ∷ []) (record {
      remote_addr = "10.0.0.9";
      forwarded_for = "1.1.1.1, 8.8.8.8 ,10.0.0.9";
      real_ip = "";
    })
    ≡ "8.8.8.8"
unfolding client_ip host_only forwarded_ip scan trusted backwards split_commas trim_space
client_behind_proxy = refl

forwarded_ip-append_example :
    answer ("10.0.0.9" ∷ []) "10.0.0.9" ("forged" ∷ "8.8.8.8" ∷ "10.0.0.9" ∷ [])
    ≡ answer ("10.0.0.9" ∷ []) "10.0.0.9" ("8.8.8.8" ∷ "10.0.0.9" ∷ [])
unfolding backwards trim_space trusted
forwarded_ip-append_example =
    forwarded_ip-append String String read_address same same ◌==◌ no_port ("10.0.0.9" ∷ [])
      "10.0.0.9" ("forged" ∷ []) [] ("8.8.8.8" ∷ "10.0.0.9" ∷ []) (inr (inl refl))

forwarded_ip-IsAnswer_example :
    IsAnswer String String read_address same same ◌==◌ no_port
      ("10.0.0.9" ∷ [])
      "10.0.0.9"
      (map
        (candidate String String read_address same same ◌==◌ no_port)
        (backwards ("8.8.8.8" ∷ [])))
      (answer ("10.0.0.9" ∷ []) "10.0.0.9" ("8.8.8.8" ∷ []))
forwarded_ip-IsAnswer_example =
    forwarded_ip-IsAnswer String String read_address same same ◌==◌ no_port ("10.0.0.9" ∷ [])
      "10.0.0.9" ("8.8.8.8" ∷ [])
