-- ===== src/WifiScan/Scan/Kept.antt =====
-- What `ParseWifiScan` leaves as it is: all but what its elements say.
use wlan_cloud_ucentralgw.Base.{ℕ, some, ◌≡◌, refl, sym, ap, ◌∙◌}
use wlan_cloud_ucentralgw.Base.Table.{Text}
use wlan_cloud_ucentralgw.WifiScan.Bytes.{Bytes}
use wlan_cloud_ucentralgw.WifiScan.Json.{
  Json, null, array, object, Items, no_item, item, Members, get, put, get-put, put-put,
}
use wlan_cloud_ucentralgw.WifiScan.Reads.{bind-eq-some, some_inj}
use wlan_cloud_ucentralgw.WifiScan.Scan.{
  parse_ie, parse_ies, with_ies, parse_entry, parse_entries, with_scan, with_status, parse_answer,
}

-- An answer without its elements: null in the place of each.
blank_ies : Items → Items
blank_ies no_item = no_item
blank_ies (item ie rest) = item null (blank_ies rest)

blank_members : Members → Json → Members
blank_members entry (array ies) = put "ies" (array (blank_ies ies)) entry
blank_members entry _ = entry

blank_entry : Json → Json
blank_entry (object entry) = object (blank_members entry (get "ies" entry))
blank_entry scan_entry = scan_entry

blank_entries : Items → Items
blank_entries no_item = no_item
blank_entries (item entry rest) = item (blank_entry entry) (blank_entries rest)

blank_scan : Members → Json → Members
blank_scan status (array scan) = put "scan" (array (blank_entries scan)) status
blank_scan status _ = status

blank_status : Members → Json → Members
blank_status answer (object status) =
    put "status" (object (blank_scan status (get "scan" status))) answer
blank_status answer _ = answer

unfoldable pub blank : Json → Json
unfolding blank_status blank_scan blank_entries blank_entry blank_members blank_ies
blank (object answer) = object (blank_status answer (get "status" answer))
blank other = other

module _ (base64 : Text → Bytes) (truncate : Text → ℕ) where
  parse_ies-blank :
      (ies : Items) {new_ies : Items}
      → parse_ies base64 truncate ies ≡ some new_ies
      → blank_ies new_ies ≡ blank_ies ies
  unfolding parse_ies blank_ies
  parse_ies-blank no_item h = ap blank_ies (sym (some_inj h))
  parse_ies-blank (item ie rest) h =
      let (new_ie, e, h') = bind-eq-some (parse_ie base64 truncate ie) _ h in
      let (new_rest, e', h'') = bind-eq-some (parse_ies base64 truncate rest) _ h' in
      ap blank_ies (sym (some_inj h'')) ∙ ap (item null) (parse_ies-blank rest e')

  with_ies-blank :
      (entry : Members) (ies : Json) {entry' : Members}
      → get "ies" entry ≡ ies
      → with_ies base64 truncate entry ies ≡ some entry'
      → blank_members entry' (get "ies" entry') ≡ blank_members entry (get "ies" entry)
  unfolding with_ies blank_members
  with_ies-blank entry (array ies) g h =
      let (new_ies, e, h') = bind-eq-some (parse_ies base64 truncate ies) _ h in
      rw (← some_inj h', g, get-put, put-put, parse_ies-blank ies e) refl
  with_ies-blank entry _ g h = rw (some_inj h)

  parse_entry-blank :
      (entry : Json) {entry' : Json}
      → parse_entry base64 truncate entry ≡ some entry'
      → blank_entry entry' ≡ blank_entry entry
  unfolding parse_entry blank_entry
  parse_entry-blank (object entry) h =
      let (entry', e, h') = bind-eq-some (with_ies base64 truncate entry (get "ies" entry)) _ h in
      ap blank_entry (sym (some_inj h')) ∙ ap object (with_ies-blank entry _ refl e)
  parse_entry-blank entry h = ap blank_entry (sym (some_inj h))

  parse_entries-blank :
      (scan : Items) {scan' : Items}
      → parse_entries base64 truncate scan ≡ some scan'
      → blank_entries scan' ≡ blank_entries scan
  unfolding parse_entries blank_entries
  parse_entries-blank no_item h = ap blank_entries (sym (some_inj h))
  parse_entries-blank (item entry rest) h =
      let (entry', e, h') = bind-eq-some (parse_entry base64 truncate entry) _ h in
      let (rest', e', h'') = bind-eq-some (parse_entries base64 truncate rest) _ h' in
      ap blank_entries (sym (some_inj h''))
      ∙ ap (λ x. item x (blank_entries rest')) (parse_entry-blank entry e)
      ∙ ap (item (blank_entry entry)) (parse_entries-blank rest e')

  with_scan-blank :
      (status : Members) (scan : Json) {status' : Members}
      → get "scan" status ≡ scan
      → with_scan base64 truncate status scan ≡ some status'
      → blank_scan status' (get "scan" status') ≡ blank_scan status (get "scan" status)
  unfolding with_scan blank_scan
  with_scan-blank status (array scan) g h =
      let (scan', e, h') = bind-eq-some (parse_entries base64 truncate scan) _ h in
      rw (← some_inj h', g, get-put, put-put, parse_entries-blank scan e) refl
  with_scan-blank status _ g h = rw (some_inj h)

  with_status-blank :
      (answer : Members) (status : Json) {answer' : Members}
      → get "status" answer ≡ status
      → with_status base64 truncate answer status ≡ some answer'
      → blank_status answer' (get "status" answer') ≡ blank_status answer (get "status" answer)
  unfolding with_status blank_status
  with_status-blank answer (object status) g h =
      let (status', e, h') =
        bind-eq-some (with_scan base64 truncate status (get "scan" status)) _ h in
      rw (← some_inj h', g, get-put, put-put, with_scan-blank status _ refl e) refl
  with_status-blank answer _ g h = rw (some_inj h)

  pub parse_answer-blank :
      (answer answer' : Json)
      → parse_answer base64 truncate answer ≡ some answer'
      → blank answer' ≡ blank answer
  unfolding parse_answer blank
  parse_answer-blank (object answer) answer' h =
      let (parsed, e, h') =
        bind-eq-some (with_status base64 truncate answer (get "status" answer)) _ h in
      ap blank (sym (some_inj h')) ∙ ap object (with_status-blank answer _ refl e)
  parse_answer-blank other answer' h = ap blank (sym (some_inj h))
