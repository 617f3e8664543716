-- ===== src/Ams/Frame.antt =====
-- The headers of `encode` fit their fields.
use go_adstc.Prelude.{ℕ, ◌^◌, ◌<◌, arith, List}
use go_adstc.Go.Binary.{Fits}
use go_adstc.Ams.{AmsAddress, header_layout, header_values}
use go_adstc.Ams.{request_header}

-- The address fits its 8 bytes.
abbrev pub IsAddress : AmsAddress → Type 0
IsAddress a =
    (a.net_id.b0 < 256)
    × (a.net_id.b1 < 256)
    × (a.net_id.b2 < 256)
    × (a.net_id.b3 < 256)
    × (a.net_id.b4 < 256)
    × (a.net_id.b5 < 256)
    × (a.port < 2 ^ 16)

module _ (target source : AmsAddress) (command : ℕ) (payload : List ℕ) (invoke_id : ℕ) where
  pub request_header-Fits :
      IsAddress target
      → IsAddress source
      → command < 2 ^ 16
      → invoke_id < 2 ^ 32
      → Fits header_layout (header_values (request_header target source command payload invoke_id))
  request_header-Fits ht hs hc hi = omega arith
