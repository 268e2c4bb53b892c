-- ===== src/Tests/SharedRuns.antt =====
-- The theorems on the shared library (libs/shared) at concrete inputs.
use iotflow_distributed_syst.Base.{◌≡◌, refl, Text, str, some, [], ◌∷◌, arith, ◌++◌, ℕ}
use iotflow_distributed_syst.Exec.{ok, pure, modify, ◌>>◌}
use iotflow_distributed_syst.Python.{lookup, text, insert, Datetime}
use iotflow_distributed_syst.Shared.Pipeline.{HasTraceId, Handler, execute, ensure_trace_id}
use iotflow_distributed_syst.Shared.Pipeline.Chain.{chain, execute-eq-chain}
use iotflow_distributed_syst.Shared.Models.{
  upper, parse_event, ensure_utc, check_fields, validate_ulid, all_match, matches_ulid_class,
  replace_z, upper_code, to_kafka_dict,
}
use iotflow_distributed_syst.Shared.Models.RoundTrip.{DatetimeLaws, parse_event-to_kafka_dict}
use iotflow_distributed_syst.Tests.Samples.{runtime, raw_event, event, datetime_stamp}

stamp_read :
    (clock offset : ℕ) (t : Datetime)
    → runtime.to_utc clock offset ≡ some t
    → runtime.fromisoformat (datetime_stamp t ++ str "+00:00") ≡ some t
stamp_read clock offset t h = ground arith

stamp_utc :
    (clock offset : ℕ) (t : Datetime)
    → runtime.to_utc clock offset ≡ some t
    → (t.offset ≡ some 0) × (runtime.to_utc t.clock 0 ≡ some t)
stamp_utc clock offset t h = ground arith

pub runtime_laws : DatetimeLaws runtime
runtime_laws = record {
  stamp = datetime_stamp;
  zero_offset = 0;
  utc_offset = stamp_utc;
  printed = λ t utc. refl;
  stamp_lacks_z = λ t. ground arith;
  read_back = stamp_read;
}

parse_event-to_kafka_dict_example :
    parse_event runtime (insert (str "_trace_id") (text (str "t1")) (to_kafka_dict runtime event))
    ≡ ok event
unfolding parse_event ensure_utc check_fields validate_ulid all_match matches_ulid_class upper
    upper_code lookup replace_z
parse_event-to_kafka_dict_example =
    parse_event-to_kafka_dict runtime runtime_laws raw_event event (text (str "t1")) refl refl

-- The state of this pipeline is its trace id.
abbrev traced : HasTraceId Text
traced = record { trace_id = λ t. t; set_trace_id = λ t s. t; uuid4 = pure (str "id") }

-- Notes the order in which the handlers begin and end.
abbrev around : ℕ → Handler Text
around c next_call = do modify (λ s. s ++ c ∷ []); next_call; modify (λ s. s ++ c ∷ [])

execute-eq-chain_example :
    (execute traced (record { handlers = around b'a' ∷ around b'b' ∷ [] })
      ≡ (ensure_trace_id traced >> chain (around b'a' ∷ around b'b' ∷ [])))
    × (execute traced (record { handlers = [] }) ≡ pure tt)
execute-eq-chain_example = execute-eq-chain traced (around b'a') (around b'b' ∷ [])
