-- ===== src/Methods/Tests.antt =====
-- The theorems on request methods at concrete inputs.
use libms.Base.{◌≡◌, refl}
use libms.Methods.{ms_http_method_str}

unknown_index : ms_http_method_str 34 ≡ "UNKNOWN"
unfolding ms_http_method_str
unknown_index = refl
