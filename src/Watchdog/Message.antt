-- ===== src/Watchdog/Message.antt =====
-- The texts that the sweep publishes and records.
use shard_vpn.Prelude.{ℕ, Text, txt, List, [], ◌∷◌, ◌++◌, map}
use shard_vpn.Python.{Exc, exc_str, exc_name}
use shard_vpn.Python.Decimal.{print}
use shard_vpn.World.{Instance}

-- separator.join(parts)
unfoldable pub join : Text → List Text → Text
join sep [] = []
join sep (p ∷ []) = p
join sep (p ∷ q ∷ ps) = p ++ (sep ++ join sep (q ∷ ps))

unfoldable pub terminate_failed : Text → Text → Text → Exc → Text
terminate_failed instance_id region reason e =
    txt "terminate "
    ++ (instance_id
        ++ (txt " in " ++ (region ++ (txt " (" ++ (reason ++ (txt "): " ++ exc_str e))))))

unfoldable pub threshold_failed : Exc → Text
threshold_failed e = txt "idle-threshold-bytes: " ++ exc_str e

unfoldable pub regions_failed : Exc → Text
regions_failed e = txt "valid_regions: " ++ exc_str e

unfoldable pub scan_failed : Text → Exc → Text
scan_failed region e =
    txt "region scan failed: " ++ (region ++ (txt " (" ++ (exc_name e ++ txt ")")))

unfoldable pub reaped : Text → Text → Text → Text
reaped instance_id region expires =
    txt "shardvpn: reaped "
    ++ (instance_id ++ (txt " in " ++ (region ++ (txt " (expired " ++ (expires ++ txt ")")))))

place : Text × Instance → Text
place (region, i) = i.instance_id ++ (txt " in " ++ region)

-- The `detail` of a set of duplicates that cannot be ordered.
unfoldable pub places : List (Text × Instance) → Text
unfolding place
places nodes = join (txt ", ") (map place nodes)

unfoldable pub unordered : Text → Text
unordered detail = txt "unresolved duplicates (unordered launch tags): " ++ detail

unfoldable pub unresolved : Text → Text
unresolved detail =
    txt "shardvpn: found multiple exit nodes whose launch time could not be determined ("
    ++ (detail
        ++ txt
            "). Terminating the wrong one could drop a live VPN session, so none were touched — please resolve this manually.")

unfoldable pub duplicate : Text → Text → Text
duplicate instance_id region =
    txt "shardvpn: terminated duplicate " ++ (instance_id ++ (txt " in " ++ region))

unfoldable pub untracked : Text → Text → Text
untracked instance_id region =
    txt "shardvpn: found untracked node "
    ++ (instance_id
        ++ (txt " in "
            ++ (region ++ txt ". If you did not launch this, rotate the signing secret.")))

unfoldable pub unchecked : Text → Text → Text
unchecked instance_id region =
    txt "shardvpn: node "
    ++ (instance_id
        ++ (txt " in "
            ++ (region
                ++ txt
                    " could not be checked against the pointer (SSM read failed). Not necessarily a problem.")))

unfoldable pub idle : Text → Text → Text → ℕ → ℕ → Text
idle instance_id region launched hours bytes =
    txt "shardvpn: node "
    ++ (instance_id
        ++ (txt " in "
            ++ (region
                ++ (txt " has been idle for "
                    ++ (print hours
                        ++ (txt "h (launched "
                            ++ (launched
                                ++ (txt ", "
                                    ++ (print bytes
                                        ++ txt
                                            " bytes out). Send {\"action\":\"down\"} if you are finished with it.")))))))))

unfoldable pub idle_failed : Text → Text → Exc → Text
idle_failed instance_id region e =
    txt "idle check " ++ (instance_id ++ (txt " in " ++ (region ++ (txt ": " ++ exc_str e))))

unfoldable pub reconcile_failed : Exc → Text
reconcile_failed e = txt "pointer reconciliation: " ++ exc_str e

unfoldable pub failures : List Text → Text
failures parts = txt "shardvpn: sweep completed with failures: " ++ join (txt "; ") parts
