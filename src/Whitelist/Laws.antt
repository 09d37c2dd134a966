-- ===== src/Whitelist/Laws.antt =====
-- internal/whitelist/store.go: what an addition and the cleaning at start leave on the lists.
use trust_proxy.Base.{◌+◌, String, Bool, List, ◌≡◌, arith, ◌==◌, ◌||◌, ◌&&◌, not, length}
use trust_proxy.Base.Text.{trim_space}
use trust_proxy.ListStore.{Store, Write, contains, filter_count}
use trust_proxy.ListStore.Laws.{contains-add, filter_count_keeps}
use trust_proxy.Whitelist.{
  Rules, add_domain, bad_domain, broad_domain, normalize_domain, add_ip, sanitize,
}

-- AddDomain puts the trimmed and lowered domain on the list unless it is empty, has a slash or a
-- blank, or is nothing but wildcards and dots; every other domain stays as it was. This is so in
-- memory whether the save succeeds or not.
add_domain-contains :
    (s : Store Rules) (given : String) (note : List String) (disk : Write Rules) (w : String)
    → contains (add_domain s given note disk).0.current.domains w ≡ (
        contains s.current.domains w
        || (not (bad_domain (normalize_domain given))
            && not (broad_domain (normalize_domain given))
            && normalize_domain given == w))
unfolding add_domain
add_domain-contains s given note disk w =
    ground (arith, contains-add s.current.domains (normalize_domain given) w)

module _ (valid_cidr : String → Bool) where
  -- AddIP puts the trimmed address on the list exactly if it is a valid address or network.
  add_ip-contains :
      (s : Store Rules) (given : String) (note : List String) (disk : Write Rules) (w : String)
      → contains (add_ip valid_cidr s given note disk).0.current.ips w
        ≡ (contains s.current.ips w || (valid_cidr (trim_space given) && trim_space given == w))
  unfolding add_ip
  add_ip-contains s given note disk w =
      ground (arith, contains-add s.current.ips (trim_space given) w)

  -- The cleaning at start keeps exactly the valid addresses and devices, and counts the entries
  -- that it drops.
  sanitize_keeps :
      (r : Rules) (w : String)
      → (contains (sanitize valid_cidr r).0.ips w ≡ (contains r.ips w && valid_cidr w))
        × (contains (sanitize valid_cidr r).0.devices w ≡ (contains r.devices w && valid_cidr w))
        × ((length (sanitize valid_cidr r).0.ips + length (sanitize valid_cidr r).0.devices)
              + (sanitize valid_cidr r).1
            ≡ length r.ips + length r.devices)
  unfolding sanitize
  sanitize_keeps r w =
      let (ips, ips_count) = filter_count_keeps valid_cidr r.ips 0 w in
      let (devices, devices_count) =
        filter_count_keeps valid_cidr r.devices (filter_count r.ips valid_cidr 0).1 w in
      (ips, devices, omega (arith, ips_count, devices_count))
