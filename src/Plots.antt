-- ===== src/Plots.antt =====
-- The numbers behind the plots: experiments/exp3/plot_exp3.py and chaos-bench/plot.py. The drawing is
-- left out.
pub mod Timeline
pub mod Summary
pub mod Scorecard
pub mod Throughput
