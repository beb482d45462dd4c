-- ===== src/WifiScan/Scan/Parsed.antt =====
-- The answers that `ParseWifiScan` works through, and what it makes of them.
use wlan_cloud_ucentralgw.Base.{
  ℕ, ◌≡◌, refl, Bool, true, ◌&&◌, Option, none, some, arith, if◌then◌else◌,
}
use wlan_cloud_ucentralgw.Base.Table.{Text}
use wlan_cloud_ucentralgw.WifiScan.Bytes.{Bytes}
use wlan_cloud_ucentralgw.WifiScan.Json.{Json, array, object, Items, no_item, item, Members, get}
use wlan_cloud_ucentralgw.WifiScan.Reads.{is_some, is_some-bind}
use wlan_cloud_ucentralgw.WifiScan.Scan.Fits.{fits_element, decode_fits}
use wlan_cloud_ucentralgw.WifiScan.Scan.Kept.{blank, parse_answer-blank}
use wlan_cloud_ucentralgw.WifiScan.Scan.{
  to_number, to_text, contains, at, decode_texts, parse_ie, parse_ies, with_ies, parse_entry,
  parse_entries, with_scan, with_status, parse_answer, parse_wifi_scan,
}

found : (o : Option Json) → is_some o ≡ true → (j : Json) × (o ≡ some j)
found none h = absurd (ground arith)
found (some j) h = (j, refl)

module _ (base64 : Text → Bytes) (truncate : Text → ℕ) where
  -- Each element has the size that its type needs; one that is not decoded has any.
  fits_texts : Option ℕ → Option Text → Bool
  fits_texts (some type) (some text) = fits_element type (base64 text)
  fits_texts _ _ = true

  fits_ie : Json → Bool
  fits_ie ie =
      if contains "type" ie && contains "data" ie
      then fits_texts (to_number truncate (at "type" ie)) (to_text (at "data" ie))
      else true

  fits_ies : Items → Bool
  fits_ies no_item = true
  fits_ies (item ie rest) = fits_ie ie && fits_ies rest

  fits_list : Json → Bool
  fits_list (array ies) = fits_ies ies
  fits_list _ = true

  fits_entries : Items → Bool
  fits_entries no_item = true
  fits_entries (item (object entry) rest) = fits_list (get "ies" entry) && fits_entries rest
  fits_entries (item _ rest) = fits_entries rest

  fits_scan : Json → Bool
  fits_scan (array scan) = fits_entries scan
  fits_scan _ = true

  fits_status : Json → Bool
  fits_status (object status) = fits_scan (get "scan" status)
  fits_status _ = true

  unfoldable pub fits_answer : Json → Bool
  unfolding fits_status fits_scan fits_entries fits_list fits_ies fits_ie fits_texts
  fits_answer (object answer) = fits_status (get "status" answer)
  fits_answer _ = true

  decode_texts-is_some :
      (ie : Json) (type : Option ℕ) (text : Option Text)
      → fits_texts type text ≡ true
      → is_some (decode_texts base64 truncate ie type text) ≡ true
  unfolding decode_texts fits_texts
  decode_texts-is_some ie (some type) (some text) h = decode_fits ie type (base64 text) h
  decode_texts-is_some ie (some type) none h = refl
  decode_texts-is_some ie none text h = refl

  parse_ie-is_some : (ie : Json) → fits_ie ie ≡ true → is_some (parse_ie base64 truncate ie) ≡ true
  unfolding parse_ie fits_ie
  parse_ie-is_some ie h = ground (
    arith,
    h,
    decode_texts-is_some ie (to_number truncate (at "type" ie)) (to_text (at "data" ie)),
  )

  parse_ies-is_some :
      (ies : Items) → fits_ies ies ≡ true → is_some (parse_ies base64 truncate ies) ≡ true
  unfolding parse_ies fits_ies
  parse_ies-is_some no_item h = refl
  parse_ies-is_some (item ie rest) h =
      is_some-bind (parse_ie base64 truncate ie) _ (parse_ie-is_some ie (ground (arith, h)))
        (λ _. is_some-bind _ _ (parse_ies-is_some rest (ground (arith, h))) (λ _. refl))

  with_ies-is_some :
      (entry : Members) (ies : Json)
      → fits_list ies ≡ true
      → is_some (with_ies base64 truncate entry ies) ≡ true
  unfolding with_ies fits_list
  with_ies-is_some entry (array ies) h = is_some-bind _ _ (parse_ies-is_some ies h) (λ _. refl)
  with_ies-is_some entry _ h = refl

  parse_entries-is_some :
      (scan : Items)
      → fits_entries scan ≡ true
      → is_some (parse_entries base64 truncate scan) ≡ true
  unfolding parse_entries parse_entry fits_entries
  parse_entries-is_some no_item h = refl
  parse_entries-is_some (item (object entry) rest) h =
      is_some-bind (parse_entry base64 truncate (object entry)) _
        (is_some-bind _ _ (with_ies-is_some entry (get "ies" entry) (ground (arith, h)))
          (λ _. refl))
        (λ _. is_some-bind _ _ (parse_entries-is_some rest (ground (arith, h))) (λ _. refl))
  parse_entries-is_some (item _ rest) h =
      is_some-bind _ _ (parse_entries-is_some rest h) (λ _. refl)

  with_scan-is_some :
      (status : Members) (scan : Json)
      → fits_scan scan ≡ true
      → is_some (with_scan base64 truncate status scan) ≡ true
  unfolding with_scan fits_scan
  with_scan-is_some status (array scan) h =
      is_some-bind _ _ (parse_entries-is_some scan h) (λ _. refl)
  with_scan-is_some status _ h = refl

  with_status-is_some :
      (answer : Members) (status : Json)
      → fits_status status ≡ true
      → is_some (with_status base64 truncate answer status) ≡ true
  unfolding with_status fits_status
  with_status-is_some answer (object status) h =
      is_some-bind _ _ (with_scan-is_some status (get "scan" status) h) (λ _. refl)
  with_status-is_some answer _ h = refl

  parse_answer-is_some :
      (answer : Json)
      → fits_answer answer ≡ true
      → is_some (parse_answer base64 truncate answer) ≡ true
  unfolding parse_answer fits_answer
  parse_answer-is_some (object answer) h =
      is_some-bind _ _ (with_status-is_some answer (get "status" answer) h) (λ _. refl)
  parse_answer-is_some _ h = refl

  -- Take an answer in which each element has the size that its type needs. It is worked through
  -- without a read past an end, and what comes of it differs from the answer in nothing but the
  -- elements: with null in the place of each element, the two are the same, so that every entry of
  -- the scan, the number and the order of its elements and all that stands beside them are kept.
  -- `ParseWifiScan` returns the text of that, or fails if `to_string` throws on it. What a type
  -- needs: RSN an even size from six bytes on, a vendor one that is shown as it is and has a byte,
  -- or fewer than three bytes; each other type its own.
  pub parse_wifi_scan_lem :
      (to_string : Json → Option Text) (answer : Json)
      → fits_answer answer ≡ true
      → (answer' : Json) × (parse_wifi_scan base64 truncate to_string answer
          ≡ some (to_string answer'))
        × (parse_answer base64 truncate answer ≡ some answer')
        × (blank answer' ≡ blank answer)
  unfolding parse_wifi_scan
  parse_wifi_scan_lem to_string answer h =
      let (answer', e) =
        found (parse_answer base64 truncate answer) (parse_answer-is_some answer h) in
      (answer', rw e refl, e, parse_answer-blank base64 truncate answer answer' e)
