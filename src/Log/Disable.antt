-- ===== src/Log/Disable.antt =====
-- The switch `_LCU_LOGGER_DISABLE` of toolbox/src/main/cpp/lcu/log/logger_facade.h.
