-- ===== src/Indicator/Equality.antt =====
-- The derived equality of `Indicator`.
use sentinel_osint.Common.{
  Bool, true, false, ◌&&◌, ◌≡◌, ◌↔◌, arith, ap, Eq, nat_eq, list_beq, list_beq_iff,
}
use sentinel_osint.Net.{ipv4_beq, ipv6_beq, ipv4_beq_iff, ipv6_beq_iff}
use sentinel_osint.Indicator.Defs.{DomainName, FileHash, HashAlgorithm, md5, sha1, sha256, Crates}
use sentinel_osint.Indicator.Url.{HttpUrl}
use sentinel_osint.Indicator.Policy.{Indicator, domain, ipv4, ipv6, url, file_hash}

abbrev algorithm_beq : HashAlgorithm → HashAlgorithm → Bool
algorithm_beq md5 md5 = true
algorithm_beq sha1 sha1 = true
algorithm_beq sha256 sha256 = true
algorithm_beq _ _ = false

algorithm_beq_iff : (x y : HashAlgorithm) → (algorithm_beq x y ≡ true) ↔ (x ≡ y)
algorithm_beq_iff x y = ground arith

abbrev hash_beq : FileHash → FileHash → Bool
hash_beq x y = algorithm_beq x.algorithm y.algorithm && list_beq x.hex y.hex

hash_beq_iff : (x y : FileHash) → (hash_beq x y ≡ true) ↔ (x ≡ y)
hash_beq_iff x y =
    ground (arith, algorithm_beq_iff x.algorithm y.algorithm, list_beq_iff x.hex y.hex)

domain_beq_iff : (x y : DomainName) → (list_beq x.name y.name ≡ true) ↔ (x ≡ y)
domain_beq_iff x y = ground (arith, list_beq_iff x.name y.name)

module _ (lib : Crates) where
  abbrev pub indicator_beq : Indicator lib → Indicator lib → Bool
  indicator_beq (domain x) (domain y) = list_beq x.name y.name
  indicator_beq (ipv4 x) (ipv4 y) = ipv4_beq x y
  indicator_beq (ipv6 x) (ipv6 y) = ipv6_beq x y
  indicator_beq (url x) (url y) = lib.url_beq x.url y.url
  indicator_beq (file_hash x) (file_hash y) = hash_beq x y
  indicator_beq _ _ = false

  url_beq_iff : (x y : HttpUrl lib) → (lib.url_beq x.url y.url ≡ true) ↔ (x ≡ y)
  url_beq_iff x y = (
    λ h. ap (λ u. record { url = u }) ((lib.url_beq_iff x.url y.url).0 h),
    λ e. (lib.url_beq_iff x.url y.url).1 (ap (λ u. u.url) e),
  )

  pub indicator_beq_iff : (x y : Indicator lib) → (indicator_beq x y ≡ true) ↔ (x ≡ y)
  indicator_beq_iff (domain x) (domain y) = ground (arith, domain_beq_iff x y)
  indicator_beq_iff (ipv4 x) (ipv4 y) = ground (arith, ipv4_beq_iff x y)
  indicator_beq_iff (ipv6 x) (ipv6 y) = ground (arith, ipv6_beq_iff x y)
  indicator_beq_iff (url x) (url y) = ground (arith, url_beq_iff x y)
  indicator_beq_iff (file_hash x) (file_hash y) = ground (arith, hash_beq_iff x y)
  indicator_beq_iff _ _ = (λ h. cc, λ h. cc)

  abbrev pub indicator_eq : Eq (Indicator lib)
  indicator_eq = record { beq = indicator_beq; beq_iff = indicator_beq_iff }
