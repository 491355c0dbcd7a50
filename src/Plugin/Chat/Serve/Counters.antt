-- ===== src/Plugin/Chat/Serve/Counters.antt =====
-- The counters of the chat's requests (plugin/moc_chat.c), and what counting one request does to them.
use moc.Shared.{
  ℕ, ◌+◌, ◌≤◌, ◌≡◌, refl, ◌&&◌, Bool-cases, inl, inr, arith, leb, ltb, ◌==◌, if◌then◌else◌,
}
use moc.Plugin.Chat.Serve.{ChatStats, count_result}
use moc.Server.Reply.{rep_ok, rep_err_unkreq}
use moc.Server.Commands.{rep_err_badparam}

-- Every request has succeeded or failed; those of unknown commands and those with bad parameters are
-- different failures, and the requests for statistics are successes.
pub record IsCounted (st : ChatStats) : Type 0 where
  pub total : st.proc_suc + st.proc_fai ≡ st.msg_total
  pub failures : st.msg_unrec + st.msg_badparam ≤ st.proc_fai
  pub successes : st.msg_stats ≤ st.proc_suc

pub count_total :
    (st : ChatStats) (ret : ℕ)
    → IsCounted st
    → IsCounted (count_result ret (record st { msg_total = st.msg_total + 1 }))
unfolding count_result
count_total st ret is = elim (Bool-cases (leb rep_ok ret)) [
  | inl ok ↦ rw ok (record {
    total = omega (arith, is.total);
    failures = is.failures;
    successes = omega (arith, is.successes);
  })
  | inr bad ↦ elim (Bool-cases (ret == rep_err_badparam)) [
    | inl param ↦
        rw (bad, param)
          (record {
            total = omega (arith, is.total);
            failures = omega (arith, is.failures);
            successes = is.successes;
          })
    | inr other ↦
        rw (bad, other)
          (record {
            total = omega (arith, is.total);
            failures = omega (arith, is.failures);
            successes = is.successes;
          })
  ]
]

pub count_stats :
    (st : ChatStats)
    → IsCounted st
    → IsCounted (
        count_result rep_ok
          (record st { msg_total = st.msg_total + 1; msg_stats = st.msg_stats + 1 }))
unfolding count_result
count_stats st is = record {
  total = omega (arith, is.total);
  failures = is.failures;
  successes = omega (arith, is.successes);
}

pub count_unknown :
    (st : ChatStats)
    → IsCounted st
    → IsCounted (
        count_result rep_err_unkreq
          (record st { msg_total = st.msg_total + 1; msg_unrec = st.msg_unrec + 1 }))
unfolding count_result
count_unknown st is = record {
  total = omega (arith, is.total);
  failures = omega (arith, is.failures);
  successes = is.successes;
}

-- One request with the result `ret` is counted: in the total, as a success or as a failure, and a
-- failure for bad parameters as one of those.
pub record CountsOnce (ret : ℕ) (st st' : ChatStats) : Type 0 where
  pub total : st'.msg_total ≡ st.msg_total + 1
  pub success : st'.proc_suc ≡ st.proc_suc + (if ltb ret rep_ok then 0 else 1)
  pub failure : st'.proc_fai ≡ st.proc_fai + (if ltb ret rep_ok then 1 else 0)
  pub badparam :
      st'.msg_badparam
      ≡ st.msg_badparam + (if ltb ret rep_ok && ret == rep_err_badparam then 1 else 0)

pub count_result-CountsOnce :
    (ret stats unrec : ℕ) (st : ChatStats)
    → CountsOnce ret st (
        count_result ret
          (record st { msg_total = st.msg_total + 1; msg_stats = stats; msg_unrec = unrec }))
unfolding count_result
count_result-CountsOnce ret stats unrec st = elim (Bool-cases (leb rep_ok ret)) [
  | inl ok ↦ rw ok (record {
    total = refl;
    success = ground arith;
    failure = ground arith;
    badparam = ground arith;
  })
  | inr bad ↦ rw bad (record {
    total = refl;
    success = ground arith;
    failure = ground arith;
    badparam = ground arith;
  })
]
