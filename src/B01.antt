-- ===== src/B01.antt =====
-- app/b01/main.py: the handlers of the web service that change state.
pub mod Orders
pub mod Plans
pub mod Previews
pub mod Lists
