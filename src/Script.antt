-- ===== src/Script.antt =====
-- deps/CoinQ/src/CoinQ_script.h and CoinQ_script.cpp: transaction scripts.
pub mod PushData
pub mod Payee
pub mod Object
