-- ===== src/ApConnection/Telemetry/Told.antt =====
-- What the device has been told about telemetry, AP_WS_Connection.cpp.
use mathlib.Core.Path.{subst}
use wlan_cloud_ucentralgw.Base.{
  ℕ, suc, ◌+◌, ◌-◌, ◌^◌, ◌≤◌, ◌<◌, ◌≡◌, refl, sym, ap, ◌∙◌, Bool, true, false, not, ◌&&◌, ◌||◌, inl,
  List, [], ◌∷◌, ltb, ◌==◌, arith, if_elim, length,
}
use wlan_cloud_ucentralgw.Base.Table.{Text}
use wlan_cloud_ucentralgw.ApConnection.Telemetry.Orders.{
  is_started, is_started-start, is_started-stop, received, is_last_sent, IsHeard, last-IsHeard,
}
use wlan_cloud_ucentralgw.ApConnection.Telemetry.{
  Sending, start, stop, Outlet, Telemetry, no_telemetry, start_telemetry, stop_telemetry,
  update_counts, begin_reporting, set_web_socket_telemetry_reporting, set_kafka_telemetry_reporting,
  unless_counted, stop_web_socket_telemetry, stop_kafka_telemetry, TelemetryData, no_data, bad_data,
  payload, for_web_sockets, for_kafka, process_telemetry,
}

-- Whether any client counts.
abbrev pub is_counted : Telemetry → Bool
is_counted t = not (t.web_socket_ref_count == 0 && t.kafka_ref_count == 0)

-- The last order that was tried, the last one that the device got unless that one failed, the counts
-- that are shown and `reporting` agree, and neither kind has more than `n` clients.
pub record IsAgreed (n : ℕ) (t : Telemetry) : Type 0 where
  pub told : is_started t.orders ≡ t.reporting
  pub heard : IsHeard t.orders t.reporting
  pub web_sockets : t.web_socket_clients ≡ t.web_socket_ref_count
  pub kafka : t.kafka_clients ≡ t.kafka_ref_count
  pub few_web_sockets : t.web_socket_ref_count ≤ n
  pub few_kafka : t.kafka_ref_count ≤ n

-- The device reports exactly while a client counts.
pub record IsTold (n : ℕ) (t : Telemetry) : Type 0 where
  pub agreed : IsAgreed n t
  pub counted : t.reporting ≡ is_counted t

IsTold-suc : {n : ℕ} {t : Telemetry} → IsTold n t → IsTold (suc n) t
IsTold-suc v = record {
  agreed = record {
    told = v.agreed.told;
    heard = v.agreed.heard;
    web_sockets = v.agreed.web_sockets;
    kafka = v.agreed.kafka;
    few_web_sockets = omega (arith, v.agreed.few_web_sockets);
    few_kafka = omega (arith, v.agreed.few_kafka);
  };
  counted = v.counted;
}

-- Packets and deliveries do not matter to it.
IsTold-packets :
    {n : ℕ} {t : Telemetry} (p q : ℕ) (delivered : List Outlet)
    → IsTold n t
    → IsTold n (record t { web_socket_packets = p; kafka_packets = q; delivered = delivered })
IsTold-packets p q delivered v = record {
  agreed = record {
    told = v.agreed.told;
    heard = v.agreed.heard;
    web_sockets = v.agreed.web_sockets;
    kafka = v.agreed.kafka;
    few_web_sockets = v.agreed.few_web_sockets;
    few_kafka = v.agreed.few_kafka;
  };
  counted = v.counted;
}

pub data Call : Type 0 where
  set_web_socket set_kafka : Sending → ℕ → ℕ → ℕ → List Text → Call
  stop_web_socket stop_kafka : Sending → Call
  event : Bool → ℕ → Sending → Sending → Bool → TelemetryData → Call

unfoldable pub step : Call → Telemetry → Telemetry
step (set_web_socket rpc interval life_time now types) t =
    set_web_socket_telemetry_reporting rpc interval life_time now types t
step (set_kafka rpc interval life_time now types) t =
    set_kafka_telemetry_reporting rpc interval life_time now types t
step (stop_web_socket rpc) t = stop_web_socket_telemetry rpc t
step (stop_kafka rpc) t = stop_kafka_telemetry rpc t
step (event enabled now rpc next_rpc adhoc d) t =
    (process_telemetry enabled now rpc next_rpc adhoc d t).0

unfoldable pub run : List Call → Telemetry → Telemetry
run [] t = t
run (call ∷ calls) t = run calls (step call t)

begin_reporting-IsTold :
    (rpc : Sending) (n : ℕ) (types : List Text) (t : Telemetry)
    → is_counted t ≡ true
    → IsAgreed n t
    → IsTold n (begin_reporting rpc types t)
unfolding start_telemetry
begin_reporting-IsTold rpc n types t c v =
    if_elim (IsTold n) t.reporting (λ q. record { agreed = v; counted = q ∙ sym c })
      (λ q. record {
        agreed = record {
          told = is_started-start t.orders rpc t.interval types;
          heard =
              last-IsHeard t.orders (start rpc t.interval types) true
                (is_started-start (received t.orders) rpc t.interval types);
          web_sockets = v.web_sockets;
          kafka = v.kafka;
          few_web_sockets = v.few_web_sockets;
          few_kafka = v.few_kafka;
        };
        counted = sym c;
      })

unless_counted-IsTold :
    (rpc : Sending) (n : ℕ) (t : Telemetry)
    → (is_counted t ≡ true → t.reporting ≡ true)
    → IsAgreed n t
    → IsTold n (unless_counted rpc t)
unfolding stop_telemetry
unless_counted-IsTold rpc n t c v =
    if_elim (IsTold n) (t.web_socket_ref_count == 0 && t.kafka_ref_count == 0)
      (λ q. record {
        agreed = record {
          told = is_started-stop t.orders rpc;
          heard = last-IsHeard t.orders (stop rpc) false (is_started-stop (received t.orders) rpc);
          web_sockets = v.web_sockets;
          kafka = v.kafka;
          few_web_sockets = v.few_web_sockets;
          few_kafka = v.few_kafka;
        };
        counted = sym (ap not q);
      })
      (λ q. record { agreed = v; counted = c (ap not q) ∙ sym (ap not q) })

stop_web_socket_telemetry-IsTold :
    (rpc : Sending) (n : ℕ) (t : Telemetry)
    → IsTold n t
    → IsTold n (stop_web_socket_telemetry rpc t)
unfolding stop_web_socket_telemetry update_counts
stop_web_socket_telemetry-IsTold rpc n t v =
    unless_counted-IsTold rpc n
      (update_counts (record t { web_socket_ref_count = t.web_socket_ref_count - 1 }))
      (λ c. v.counted ∙ ground (arith, c))
      (record {
        told = v.agreed.told;
        heard = v.agreed.heard;
        web_sockets = refl;
        kafka = refl;
        few_web_sockets = omega (arith, v.agreed.few_web_sockets);
        few_kafka = v.agreed.few_kafka;
      })

stop_kafka_telemetry-IsTold :
    (rpc : Sending) (n : ℕ) (t : Telemetry) → IsTold n t → IsTold n (stop_kafka_telemetry rpc t)
unfolding stop_kafka_telemetry update_counts
stop_kafka_telemetry-IsTold rpc n t v =
    unless_counted-IsTold rpc n
      (update_counts (record t { kafka_ref_count = t.kafka_ref_count - 1 }))
      (λ c. v.counted ∙ ground (arith, c))
      (record {
        told = v.agreed.told;
        heard = v.agreed.heard;
        web_sockets = refl;
        kafka = refl;
        few_web_sockets = v.agreed.few_web_sockets;
        few_kafka = omega (arith, v.agreed.few_kafka);
      })

for_web_sockets-IsTold :
    (now : ℕ) (rpc : Sending) (n : ℕ) (p : Text) (t : Telemetry)
    → IsTold n t
    → IsTold n (for_web_sockets now rpc p t)
for_web_sockets-IsTold now rpc n p t v =
    if_elim (IsTold n) (t.web_socket_ref_count == 0) (λ q. v)
      (λ q.
        if_elim (IsTold n) (ltb now t.web_socket_timer) (λ r. IsTold-packets _ _ _ v)
          (λ r. stop_web_socket_telemetry-IsTold rpc n t v))

for_kafka-IsTold :
    (enabled : Bool) (now : ℕ) (rpc : Sending) (n : ℕ) (p : Text) (t : Telemetry)
    → IsTold n t
    → IsTold n (for_kafka enabled now rpc p t)
for_kafka-IsTold enabled now rpc n p t v =
    if_elim (IsTold n) (t.kafka_ref_count == 0) (λ q. v)
      (λ q.
        if_elim (IsTold n) (enabled && ltb now t.kafka_timer) (λ r. IsTold-packets _ _ _ v)
          (λ r. stop_kafka_telemetry-IsTold rpc n t v))

runaway-IsTold :
    (rpc : Sending) (n : ℕ) (t : Telemetry)
    → t.reporting ≡ false
    → IsTold n t
    → IsTold n (stop_telemetry rpc t)
unfolding stop_telemetry
runaway-IsTold rpc n t q v = record {
  agreed = record {
    told = is_started-stop t.orders rpc ∙ sym q;
    heard =
        last-IsHeard t.orders (stop rpc) t.reporting
          (is_started-stop (received t.orders) rpc ∙ sym q);
    web_sockets = v.agreed.web_sockets;
    kafka = v.agreed.kafka;
    few_web_sockets = v.agreed.few_web_sockets;
    few_kafka = v.agreed.few_kafka;
  };
  counted = v.counted;
}

process_telemetry-IsTold :
    (enabled : Bool) (now : ℕ) (rpc next_rpc : Sending) (n : ℕ) (adhoc : Bool) (d : TelemetryData)
    (t : Telemetry)
    → IsTold n t
    → IsTold n (process_telemetry enabled now rpc next_rpc adhoc d t).0
unfolding process_telemetry
process_telemetry-IsTold enabled now rpc next_rpc n adhoc no_data t v =
    if_elim {A = Telemetry × Bool} (λ r. IsTold n r.0) (t.reporting || adhoc) (λ q. v)
      (λ q. runaway-IsTold rpc n t (ground (arith, q)) v)
process_telemetry-IsTold enabled now rpc next_rpc n adhoc bad_data t v =
    if_elim {A = Telemetry × Bool} (λ r. IsTold n r.0) (t.reporting || adhoc) (λ q. v)
      (λ q. runaway-IsTold rpc n t (ground (arith, q)) v)
process_telemetry-IsTold enabled now rpc next_rpc n adhoc (payload p) t v =
    if_elim {A = Telemetry × Bool} (λ r. IsTold n r.0) (t.reporting || adhoc)
      (λ q.
        if_elim {A = Telemetry × Bool} (λ r. IsTold n r.0) adhoc (λ h. IsTold-packets _ _ _ v)
          (λ h.
            for_kafka-IsTold enabled now next_rpc n p _ (for_web_sockets-IsTold now rpc n p t v)))
      (λ q. runaway-IsTold rpc n t (ground (arith, q)) v)

step-IsTold :
    (call : Call) (n : ℕ) (t : Telemetry)
    → suc n < 2 ^ 64
    → IsTold n t
    → IsTold (suc n) (step call t)
unfolding step set_web_socket_telemetry_reporting set_kafka_telemetry_reporting update_counts
step-IsTold (set_web_socket rpc interval life_time now types) n t small v =
    begin_reporting-IsTold rpc (suc n) types _ (ground (arith, small, v.agreed.few_web_sockets))
      (record {
        told = v.agreed.told;
        heard = v.agreed.heard;
        web_sockets = refl;
        kafka = refl;
        few_web_sockets = omega (arith, small, v.agreed.few_web_sockets);
        few_kafka = omega (arith, v.agreed.few_kafka);
      })
step-IsTold (set_kafka rpc interval life_time now types) n t small v =
    begin_reporting-IsTold rpc (suc n) types _ (ground (arith, small, v.agreed.few_kafka)) (record {
      told = v.agreed.told;
      heard = v.agreed.heard;
      web_sockets = refl;
      kafka = refl;
      few_web_sockets = omega (arith, v.agreed.few_web_sockets);
      few_kafka = omega (arith, small, v.agreed.few_kafka);
    })
step-IsTold (stop_web_socket rpc) n t small v =
    IsTold-suc (stop_web_socket_telemetry-IsTold rpc n t v)
step-IsTold (stop_kafka rpc) n t small v = IsTold-suc (stop_kafka_telemetry-IsTold rpc n t v)
step-IsTold (event enabled now rpc next_rpc adhoc d) n t small v =
    IsTold-suc (process_telemetry-IsTold enabled now rpc next_rpc n adhoc d t v)

run-next :
    (calls : List Call) (n : ℕ) (t : Telemetry)
    → length calls + n < 2 ^ 64
    → IsTold n t
    → IsTold (length calls + n) (run calls t)
unfolding run
run-next [] n t small v = subst (λ k. IsTold k t) (omega arith) v
run-next (call ∷ calls) n t small v =
    subst (λ k. IsTold k (run calls (step call t))) (omega arith)
      (run-next calls (suc n) (step call t) (omega (arith, small))
        (step-IsTold call n t (omega (arith, small)) v))

-- Whatever clients come and go, in whatever order, and whatever telemetry the device sends, in fewer
-- than 2 ^ 64 calls: the connection reports telemetry exactly while a client counts, the last order
-- that it tried to send is to start exactly then, and the shown counts are the counts. If that order
-- got through, it is also the last one that the device got; if `Send` failed, nothing is said of
-- what the device does.
pub run-IsTold :
    (calls : List Call) → length calls < 2 ^ 64 → IsTold (length calls) (run calls no_telemetry)
unfolding is_started is_last_sent received
run-IsTold calls small =
    subst (λ k. IsTold k (run calls no_telemetry)) (omega arith)
      (run-next calls 0 no_telemetry (omega (arith, small)) (record {
        agreed = record {
          told = refl;
          heard = inl (refl, refl);
          web_sockets = refl;
          kafka = refl;
          few_web_sockets = omega arith;
          few_kafka = omega arith;
        };
        counted = refl;
      }))
