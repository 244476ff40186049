-- ===== src/Auth/Login/Cookies.antt =====
-- How long a client stays signed in with the cookies of a login.
